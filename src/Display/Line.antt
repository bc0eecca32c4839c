-- ===== src/Display/Line.antt =====
-- src/display/display.cpp: the text that a reader sees in the buffer of the status line.
use passinglink.Common.{
  ℕ, zero, suc, ◌+◌, ◌-◌, ◌/◌, ◌%◌, ◌≤◌, Bool, true, false, not, ◌&&◌, drop, drop_all, append-nil,
  Option, none, some, List, [], ◌∷◌, ◌++◌, ltb, ◌==◌, Bool-cases, inl, inr, ◌≡◌, refl, ap, sym, ◌∙◌,
  length, length-append, replicate, length-replicate, take, length-take, set, write_at,
  if◌then◌else◌, arith, append_assoc,
}
use mathlib.Core.Bool.{true≢false}
use passinglink.Util.{codes, copy_text, snprintf, decimal, until_nul}
use passinglink.Usb.Probe.{ProbeType, nx, ps3, ps4}
use passinglink.Display.Status.{
  Status, status_start, probe_name, padded, latency_text, locked_at, status_line,
}

-- The name of the console with its question mark, and the space up to where `LOCKED` stands.
unfoldable pub head_text : ProbeType → Bool → List ℕ
head_text nx true = codes "Switch? "
head_text nx false = codes "Switch   "
head_text ps3 true = codes "PS3?   "
head_text ps3 false = codes "PS3    "
head_text ps4 true = codes "PS4?   "
head_text ps4 false = codes "PS4    "

-- The columns of the layout from left to right.
unfoldable pub layout : Status → List ℕ
layout s =
    let left =
      head_text s.probe_type s.probing ++ (if s.locked then codes "LOCKED" else replicate 6 b' ') in
    left ++ (replicate (15 - length left) b' ' ++ take 6 (latency_text s.latency))

-- A text has no null byte.
abbrev pub is_printed : List ℕ → Bool
is_printed [] = true
is_printed (b ∷ bs) = not (b == 0) && is_printed bs

append-is_printed :
    (xs ys : List ℕ) → is_printed xs ≡ true → is_printed ys ≡ true → is_printed (xs ++ ys) ≡ true
append-is_printed [] ys p q = q
append-is_printed (x ∷ xs) ys p q = elim (Bool-cases (x == 0)) [
  | inl null ↦ absurd (true≢false (sym p ∙ rw null refl))
  | inr fine ↦ rw fine (append-is_printed xs ys (sym (rw fine refl) ∙ p) q)
]

take-is_printed : (n : ℕ) (xs : List ℕ) → is_printed xs ≡ true → is_printed (take n xs) ≡ true
take-is_printed zero xs p = refl
take-is_printed (suc n) [] p = refl
take-is_printed (suc n) (x ∷ xs) p = elim (Bool-cases (x == 0)) [
  | inl null ↦ absurd (true≢false (sym p ∙ rw null refl))
  | inr fine ↦ rw fine (take-is_printed n xs (sym (rw fine refl) ∙ p))
]

spaces-is_printed : (n : ℕ) → is_printed (replicate n b' ') ≡ true
spaces-is_printed zero = refl
spaces-is_printed (suc n) = spaces-is_printed n

decimal-is_printed : (k n : ℕ) → is_printed (decimal k n) ≡ true
unfolding decimal
decimal-is_printed zero n = refl
decimal-is_printed (suc k) n =
    append-is_printed (if ltb n 10 then [] else decimal k (n / 10)) ((b'0' + n % 10) ∷ [])
      (elim (ltb n 10) as (λ b. is_printed (if b then [] else decimal k (n / 10)) ≡ true) [
        | true ↦ refl
        | false ↦ decimal-is_printed k (n / 10)
      ])
      (ground arith)

latency_text-is_printed : (l : Option ℕ) → is_printed (latency_text l) ≡ true
unfolding latency_text padded
latency_text-is_printed none = refl
latency_text-is_printed (some us) =
    append-is_printed (padded us) (codes "us")
      (append-is_printed (replicate (4 - length (decimal 10 us)) b' ') (decimal 10 us)
        (spaces-is_printed (4 - length (decimal 10 us))) (decimal-is_printed 10 us))
      refl

length-latency_text : (l : Option ℕ) → 6 ≤ length (latency_text l)
unfolding latency_text padded
length-latency_text none = omega arith
length-latency_text (some us) = omega (
  arith,
  length-append (padded us) (codes "us"),
  length-append (replicate (4 - length (decimal 10 us)) b' ') (decimal 10 us),
  length-replicate {A = ℕ} (4 - length (decimal 10 us)) b' ',
)

-- A text up to a null byte.
until_nul-append : (xs rest : List ℕ) → is_printed xs ≡ true → until_nul (xs ++ 0 ∷ rest) ≡ xs
until_nul-append [] rest p = refl
until_nul-append (x ∷ xs) rest p = elim (Bool-cases (x == 0)) [
  | inl null ↦ absurd (true≢false (sym p ∙ rw null refl))
  | inr fine ↦ rw fine (ap (λ l. x ∷ l) (until_nul-append xs rest (sym (rw fine refl) ∙ p)))
]

set_end : (xs : List ℕ) (n : ℕ) → length xs ≡ n → set (xs ++ 0 ∷ []) n 0 ≡ xs ++ 0 ∷ []
set_end [] zero e = refl
set_end [] (suc n) e = absurd (omega arith)
set_end (x ∷ xs) zero e = absurd (omega arith)
set_end (x ∷ xs) (suc n) e = ap (λ l. x ∷ l) (set_end xs n (omega arith))

-- The latency behind what the buffer holds in its first columns.
latency_end :
    (dst text : List ℕ)
    → length dst ≡ 22
    → 6 ≤ length text
    → set (write_at dst 15 (snprintf 7 text).bytes) 21 0 ≡ (take 15 dst ++ take 6 text) ++ 0 ∷ []
unfolding snprintf
latency_end dst text full long =
    let seven : length (take 6 text ++ 0 ∷ []) ≡ 7 =
      omega (arith, length-append (take 6 text) (0 ∷ []), length-take 6 text) in
    let nothing : drop (15 + length (take 6 text ++ 0 ∷ [])) dst ≡ [] =
      drop_all (15 + length (take 6 text ++ 0 ∷ [])) dst (omega arith) in
    ap (λ l. set l 21 0)
      (ap (λ l. take 15 dst ++ ((take 6 text ++ 0 ∷ []) ++ l)) nothing
        ∙ ap (λ l. take 15 dst ++ l) (append-nil (take 6 text ++ 0 ∷ []))
        ∙ sym (append_assoc (take 15 dst) (take 6 text) (0 ∷ [])))
    ∙ set_end (take 15 dst ++ take 6 text) 21 (
        omega (
          arith,
          length-append (take 15 dst) (take 6 text),
          length-take 15 dst,
          length-take 6 text,
        ))

-- The buffer before the latency: its length, its first columns, and that these have no null byte.
Prepared : ℕ → Status → Type 0
Prepared last s =
    let left =
      head_text s.probe_type s.probing ++ (if s.locked then codes "LOCKED" else replicate 6 b' ') in
    (length (status_start last s) ≡ 22)
    × (take 15 (status_start last s) ≡ left ++ replicate (15 - length left) b' ')
    × (is_printed (take 15 (status_start last s)) ≡ true)

status_start-Prepared :
    (last : ℕ) (locked probing : Bool) (l : Option ℕ) (kind : ProbeType)
    → Prepared last (record { locked = locked; probing = probing; latency = l; probe_type = kind })
unfolding Prepared status_start copy_text locked_at probe_name head_text
status_start-Prepared last true true l nx = (refl, refl, refl)
status_start-Prepared last true true l ps3 = (refl, refl, refl)
status_start-Prepared last true true l ps4 = (refl, refl, refl)
status_start-Prepared last true false l nx = (refl, refl, refl)
status_start-Prepared last true false l ps3 = (refl, refl, refl)
status_start-Prepared last true false l ps4 = (refl, refl, refl)
status_start-Prepared last false true l nx = (refl, refl, refl)
status_start-Prepared last false true l ps3 = (refl, refl, refl)
status_start-Prepared last false true l ps4 = (refl, refl, refl)
status_start-Prepared last false false l nx = (refl, refl, refl)
status_start-Prepared last false false l ps3 = (refl, refl, refl)
status_start-Prepared last false false l ps4 = (refl, refl, refl)

-- What a reader sees in the buffer of the status line is the layout of the status, and the layout fills the 21
-- columns of the display.
pub status_line-layout :
    (last : ℕ) (s : Status) → (until_nul (status_line last s) ≡ layout s) × (length (layout s) ≡ 21)
unfolding status_line layout Prepared
status_line-layout last s =
    let start = status_start-Prepared last s.locked s.probing s.latency s.probe_type in
    let long = length-latency_text s.latency in
    let left =
      head_text s.probe_type s.probing ++ (if s.locked then codes "LOCKED" else replicate 6 b' ') in
    let joined : take 15 (status_start last s) ++ take 6 (latency_text s.latency) ≡ layout s =
      ap (λ l. l ++ take 6 (latency_text s.latency)) start.1
      ∙ append_assoc left (replicate (15 - length left) b' ') (take 6 (latency_text s.latency)) in
    (
      ap until_nul (latency_end (status_start last s) (latency_text s.latency) start.0 long)
          ∙ until_nul-append (take 15 (status_start last s) ++ take 6 (latency_text s.latency)) [] (
              append-is_printed (take 15 (status_start last s)) (take 6 (latency_text s.latency))
                start.2
                (take-is_printed 6 (latency_text s.latency) (latency_text-is_printed s.latency)))
          ∙ joined,
      sym (ap length joined)
          ∙ omega (
            arith,
            start.0,
            long,
            length-append (take 15 (status_start last s)) (take 6 (latency_text s.latency)),
            length-take 15 (status_start last s),
            length-take 6 (latency_text s.latency),
          ),
    )
