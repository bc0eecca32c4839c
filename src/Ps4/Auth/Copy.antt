-- ===== src/Ps4/Auth/Copy.antt =====
-- `copy_signature` (src/output/usb/ps4/auth.cpp) reads a window of the parts laid end to end.
use passinglink.Common.{
  ℕ, ◌+◌, ◌-◌, ◌≤◌, ◌<◌, true, false, Option, none, some, List, [], ◌∷◌, ◌++◌, ltb, leb, ◌==◌,
  length, take, drop, ◌≡◌, ◌∙◌, ap, sym, arith, inl, inr, Bool-cases, length-append, length-take,
  length-drop, take-append_ge, take-append_le, drop-append_le, drop-append_ge, take_all,
}
use passinglink.Ps4.Auth.{SignaturePart, copy_generic, copy_parts}

-- Every part is there and has its length.
abbrev pub Complete : List SignaturePart → Type 0
Complete [] = Unit {0}
Complete (p ∷ ps) =
    ((arg : List ℕ) × (p.bytes ≡ some arg) × (length arg ≡ p.part_length)) × Complete ps

abbrev pub bytes_or_empty : Option (List ℕ) → List ℕ
bytes_or_empty none = []
bytes_or_empty (some l) = l

-- The parts laid end to end.
abbrev pub blob : List SignaturePart → List ℕ
blob [] = []
blob (p ∷ ps) = bytes_or_empty p.bytes ++ blob ps

copy_generic_lem :
    (size offset : ℕ) (arg : List ℕ)
    → copy_generic size offset arg (length arg) ≡ take size (drop offset arg)
unfolding copy_generic
copy_generic_lem size offset arg = elim (Bool-cases (ltb size (length arg - offset))) [
  | inl lt ↦ rw lt
  | inr ge ↦ rw ge (
      take_all (length arg - offset) (drop offset arg) (omega (arith, length-drop offset arg))
      ∙ sym (take_all size (drop offset arg) (ground (arith, length-drop offset arg))))
]

abbrev part_of : List ℕ → SignaturePart
part_of arg = record { part_length = length arg; bytes = some arg }

part_eq :
    (p : SignaturePart) (arg : List ℕ)
    → p.bytes ≡ some arg
    → length arg ≡ p.part_length
    → p ≡ part_of arg
part_eq p arg e len = ground arith

copy_skip :
    (ps : List SignaturePart) (arg : List ℕ) (size offset : ℕ)
    → leb (length arg) offset ≡ true
    → copy_parts (part_of arg ∷ ps) size offset ≡ copy_parts ps size (offset - length arg)
unfolding copy_parts
copy_skip ps arg size offset h = rw (h, copy_parts)

-- The window ends in this part.
copy_within :
    (ps : List SignaturePart) (arg : List ℕ) (size offset : ℕ)
    → leb (length arg) offset ≡ false
    → size ≤ length arg - offset
    → copy_parts (part_of arg ∷ ps) size offset ≡ some (take size (drop offset arg))
unfolding copy_parts
copy_within ps arg size offset h fits =
    rw (h, copy_parts) (rw done (ap some (copy_generic_lem size offset arg)))
  where
    done : (size - length (copy_generic size offset arg (length arg)) == 0) ≡ true
    done =
        rw (copy_generic_lem size offset arg)
          (ground (arith, length-take size (drop offset arg), length-drop offset arg))

-- The window goes on in the parts that follow.
copy_beyond :
    (ps : List SignaturePart) (arg : List ℕ) (size offset : ℕ) (rest : List ℕ)
    → leb (length arg) offset ≡ false
    → length arg - offset < size
    → copy_parts ps (size - (length arg - offset)) 0 ≡ some rest
    → copy_parts (part_of arg ∷ ps) size offset ≡ some (drop offset arg ++ rest)
unfolding copy_parts
copy_beyond ps arg size offset rest h over e =
    rw (h, copy_parts)
      (rw more (rw (whole, length-drop offset arg, e) (ap (λ l. some (l ++ rest)) whole)))
  where
    whole : copy_generic size offset arg (length arg) ≡ drop offset arg
    whole =
        copy_generic_lem size offset arg
        ∙ take_all size (drop offset arg) (omega (arith, length-drop offset arg))

    more : (size - length (copy_generic size offset arg (length arg)) == 0) ≡ false
    more = rw (whole, length-drop offset arg) (ground arith)

-- A window that lies within the parts is copied exactly, however it falls on their boundaries.
pub copy_parts_lem :
    (ps : List SignaturePart) (size offset : ℕ)
    → Complete ps
    → 0 < size
    → offset + size ≤ length (blob ps)
    → copy_parts ps size offset ≡ some (take size (drop offset (blob ps)))
copy_parts_lem [] size offset c pos h = absurd (omega arith)
copy_parts_lem (p ∷ ps) size offset ((arg, e, len), c) pos h =
    rw (part_eq p arg e len) (elim (Bool-cases (leb (length arg) offset)) [
      | inl skip ↦
          copy_skip ps arg size offset skip
          ∙ copy_parts_lem ps size (offset - length arg) c pos (ground (arith, total))
          ∙ ap (λ l. some (take size l)) (sym (drop-append_ge offset arg (blob ps) (ground arith)))
      | inr here ↦ elim (Bool-cases (leb size (length arg - offset))) [
        | inl fits ↦
            copy_within ps arg size offset here (ground arith)
            ∙ ap some (
                sym (
                  rw (drop-append_le offset arg (blob ps) (ground arith)) (
                    take-append_le size (drop offset arg) (blob ps)
                      (ground (arith, length-drop offset arg)))))
        | inr over ↦
            copy_beyond ps arg size offset _ here (ground arith) (
              copy_parts_lem ps (size - (length arg - offset)) 0 c (ground arith)
                (ground (arith, total)))
            ∙ ap some (
                sym (
                  rw (drop-append_le offset arg (blob ps) (ground arith)) (
                    rw
                      (take-append_ge size (drop offset arg) (blob ps)
                        (ground (arith, length-drop offset arg)))
                      (rw (length-drop offset arg)))))
      ]
    ])
  where
    total : length (blob (p ∷ ps)) ≡ length arg + length (blob ps)
    total = rw e (length-append arg (blob ps))
