-- ===== src/Display/Logo.antt =====
-- src/display/ssd1306.cpp: where `draw_logo` puts the bytes of the logo.
use passinglink.Common.{
  ℕ, zero, suc, ◌+◌, ◌*◌, ◌<◌, ◌≤◌, List, [], ◌∷◌, ltb, ltb→lt, Bool-cases, ◌⊎◌, inl, inr, ◌≢◌, ◌≡◌,
  refl, ap, ◌∙◌, length, get_or, set, length-set, get_or-set_self, get_or-set_ne, if◌then◌else◌,
  arith,
}
use passinglink.Display.Font.{display_logo}
use passinglink.Display.Frame.{Display, logo_rows, logo_columns, draw_logo}

-- One column of the logo.
column : ℕ → ℕ → ℕ → ℕ → List ℕ → List ℕ
column x a b c buf = set (set (set buf (x * 4 + 0) a) (x * 4 + 1) b) (x * 4 + 2) c

length-column : (x a b c : ℕ) (buf : List ℕ) → length (column x a b c buf) ≡ length buf
unfolding column
length-column x a b c buf =
    length-set (set (set buf (x * 4 + 0) a) (x * 4 + 1) b) (x * 4 + 2) c
    ∙ length-set (set buf (x * 4 + 0) a) (x * 4 + 1) b
    ∙ length-set buf (x * 4 + 0) a

column-other :
    (x a b c j : ℕ) (buf : List ℕ)
    → x * 4 + 0 ≢ j
    → x * 4 + 1 ≢ j
    → x * 4 + 2 ≢ j
    → get_or (column x a b c buf) j 0 ≡ get_or buf j 0
unfolding column
column-other x a b c j buf n0 n1 n2 =
    get_or-set_ne (set (set buf (x * 4 + 0) a) (x * 4 + 1) b) (x * 4 + 2) j c 0 n2
    ∙ get_or-set_ne (set buf (x * 4 + 0) a) (x * 4 + 1) j b 0 n1
    ∙ get_or-set_ne buf (x * 4 + 0) j a 0 n0

column-byte :
    (x a b c k : ℕ) (buf logo : List ℕ)
    → k < 3
    → x * 4 + 3 < length buf
    → get_or (column x a b c buf) (x * 4 + k) 0 ≡ get_or (a ∷ b ∷ c ∷ logo) k 0
unfolding column
column-byte x a b c zero buf logo k3 fits =
    get_or-set_ne (set (set buf (x * 4 + 0) a) (x * 4 + 1) b) (x * 4 + 2) (x * 4 + 0) c 0
      (λ e. absurd (omega arith))
    ∙ get_or-set_ne (set buf (x * 4 + 0) a) (x * 4 + 1) (x * 4 + 0) b 0 (λ e. absurd (omega arith))
    ∙ get_or-set_self buf (x * 4 + 0) a 0 (omega arith)
column-byte x a b c (suc zero) buf logo k3 fits =
    get_or-set_ne (set (set buf (x * 4 + 0) a) (x * 4 + 1) b) (x * 4 + 2) (x * 4 + 1) c 0
      (λ e. absurd (omega arith))
    ∙ get_or-set_self (set buf (x * 4 + 0) a) (x * 4 + 1) b 0
        (omega (arith, length-set buf (x * 4 + 0) a))
column-byte x a b c (suc (suc zero)) buf logo k3 fits =
    get_or-set_self (set (set buf (x * 4 + 0) a) (x * 4 + 1) b) (x * 4 + 2) c 0 (
      omega (arith, length-set (set buf (x * 4 + 0) a) (x * 4 + 1) b, length-set buf (x * 4 + 0) a))
column-byte x a b c (suc (suc (suc k))) buf logo k3 fits = absurd (omega arith)

length-logo_columns :
    (x n : ℕ) (buf logo : List ℕ)
    → length logo ≡ n * 3
    → length (logo_columns x n (buf, logo)).0 ≡ length buf
unfolding logo_columns logo_rows column
length-logo_columns x zero buf logo size = refl
length-logo_columns x (suc n) buf [] size = absurd (omega arith)
length-logo_columns x (suc n) buf (a ∷ []) size = absurd (omega arith)
length-logo_columns x (suc n) buf (a ∷ b ∷ []) size = absurd (omega arith)
length-logo_columns x (suc n) buf (a ∷ b ∷ c ∷ logo) size =
    length-logo_columns (x + 1) n (column x a b c buf) logo (omega arith)
    ∙ length-column x a b c buf

logo_columns-other :
    (x n y k : ℕ) (buf logo : List ℕ)
    → length logo ≡ n * 3
    → k < 4
    → (k ≡ 3) ⊎ (y < x)
    → get_or (logo_columns x n (buf, logo)).0 (y * 4 + k) 0 ≡ get_or buf (y * 4 + k) 0
unfolding logo_columns logo_rows column
logo_columns-other x zero y k buf logo size k4 far = refl
logo_columns-other x (suc n) y k buf [] size k4 far = absurd (omega arith)
logo_columns-other x (suc n) y k buf (a ∷ []) size k4 far = absurd (omega arith)
logo_columns-other x (suc n) y k buf (a ∷ b ∷ []) size k4 far = absurd (omega arith)
logo_columns-other x (suc n) y k buf (a ∷ b ∷ c ∷ logo) size k4 far =
    logo_columns-other (x + 1) n y k (column x a b c buf) logo (omega arith) k4 (further far)
    ∙ column-other x a b c (y * 4 + k) buf (apart far 0 (omega arith)) (apart far 1 (omega arith))
        (apart far 2 (omega arith))
  where
    further : (k ≡ 3) ⊎ (y < x) → (k ≡ 3) ⊎ (y < x + 1)
    further (inl e) = inl e
    further (inr below) = inr (omega arith)

    apart : (k ≡ 3) ⊎ (y < x) → (i : ℕ) → i < 3 → x * 4 + i ≢ y * 4 + k
    apart (inl three) i i3 = λ e. absurd (omega arith)
    apart (inr below) i i3 = λ e. absurd (omega arith)

logo_columns-byte :
    (x n m k : ℕ) (buf logo : List ℕ)
    → length logo ≡ n * 3
    → m < n
    → k < 3
    → (x + n) * 4 ≤ length buf
    → get_or (logo_columns x n (buf, logo)).0 ((x + m) * 4 + k) 0 ≡ get_or logo (m * 3 + k) 0
unfolding logo_columns logo_rows column
logo_columns-byte x zero m k buf logo size mn k3 fits = absurd (omega arith)
logo_columns-byte x (suc n) m k buf [] size mn k3 fits = absurd (omega arith)
logo_columns-byte x (suc n) m k buf (a ∷ []) size mn k3 fits = absurd (omega arith)
logo_columns-byte x (suc n) m k buf (a ∷ b ∷ []) size mn k3 fits = absurd (omega arith)
logo_columns-byte x (suc n) zero k buf (a ∷ b ∷ c ∷ logo) size mn k3 fits =
    let same : k ≡ 0 * 3 + k = omega arith in
    logo_columns-other (x + 1) n (x + 0) k (column x a b c buf) logo (omega arith) (omega arith)
      (inr (omega arith))
    ∙ ap (λ j. get_or (column x a b c buf) j 0) (omega arith)
    ∙ column-byte x a b c k buf logo k3 (omega arith)
    ∙ ap (λ j. get_or (a ∷ b ∷ c ∷ logo) j 0) same
logo_columns-byte x (suc n) (suc m) k buf (a ∷ b ∷ c ∷ logo) size mn k3 fits =
    let there : (x + suc m) * 4 + k ≡ (x + 1 + m) * 4 + k = omega arith in
    let further : suc (suc (suc (m * 3 + k))) ≡ suc m * 3 + k = omega arith in
    ap (λ j. get_or (logo_columns (x + 1) n (column x a b c buf, logo)).0 j 0) there
    ∙ logo_columns-byte (x + 1) n m k (column x a b c buf) logo (omega arith) (omega arith) k3
        (omega (arith, length-column x a b c buf))
    ∙ ap (λ j. get_or (a ∷ b ∷ c ∷ logo) j 0) further

logo_size : length display_logo ≡ 128 * 3
unfolding display_logo
logo_size = refl

-- The logo fills the three rows above the status line with its bytes, which it has for all the columns, and
-- keeps the status line and the length of the buffer.
pub draw_logo-bytes :
    (x k : ℕ) (d : Display)
    → length d.buffer ≡ 512
    → k < 4
    → x < 128
    → (get_or (draw_logo d).buffer (x * 4 + k) 0
        ≡ (if ltb k 3 then get_or display_logo (x * 3 + k) 0 else get_or d.buffer (x * 4 + k) 0))
      × (length (draw_logo d).buffer ≡ 512)
unfolding draw_logo
draw_logo-bytes x k d full k4 x128 = (
  elim (Bool-cases (ltb k 3)) [
    | inl above ↦
        let from_0 : x * 4 + k ≡ (0 + x) * 4 + k = omega arith in
        rw above (
          ap (λ j. get_or (logo_columns 0 128 (d.buffer, display_logo)).0 j 0) from_0
          ∙ logo_columns-byte 0 128 x k d.buffer display_logo logo_size x128 (ltb→lt k 3 above)
              (omega arith))
    | inr below ↦
        rw below
          (logo_columns-other 0 128 x k d.buffer display_logo logo_size k4 (inl (ground arith)))
  ],
  length-logo_columns 0 128 d.buffer display_logo logo_size ∙ full,
)
