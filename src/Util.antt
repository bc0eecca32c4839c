-- ===== src/Util.antt =====
-- src/util.h, and what the source uses of the C library for text. A text is the list of its bytes.
use Prim.Native.Char.{code}
use Prim.Native.String.{String}
use passinglink.Common.{
  ℕ, zero, suc, ◌+◌, ◌-◌, ◌/◌, ◌%◌, min, Option, none, some, List, [], ◌∷◌, ◌++◌, ltb, ◌==◌,
  if◌then◌else◌, length, take,
}

-- The bytes of a literal of ASCII characters.
abbrev pub codes : String → List ℕ
codes String.[] = []
codes (String.◌∷◌ c s) = code c ∷ codes s

-- What is written into a buffer from its start on, and the count that is returned.
pub record Written : Type 0 where
  pub bytes : List ℕ
  pub count : ℕ

-- `copy_text` into a buffer of `size` bytes; `none` is a null pointer.
unfoldable pub copy_text : ℕ → Option (List ℕ) → Written
copy_text size none = record { bytes = []; count = 0 }
copy_text size (some str) = record {
  bytes = take (min (length str) size) str;
  count = min (length str) size;
}

-- `snprintf` of a text that the format gives: it is cut so that a null byte fits, and its whole length is
-- returned.
unfoldable pub snprintf : ℕ → List ℕ → Written
snprintf size text = record {
  bytes = if size == 0 then [] else take (size - 1) text ++ 0 ∷ [];
  count = length text;
}

-- `%u` for a number of at most k digits.
unfoldable pub decimal : ℕ → ℕ → List ℕ
decimal zero n = []
decimal (suc k) n =
    let rest = decimal k (n / 10) in (if ltb n 10 then [] else rest) ++ (b'0' + n % 10) ∷ []

-- A text after another in one buffer.
abbrev pub then_text : Written → Written → Written
then_text a b = record { bytes = a.bytes ++ b.bytes; count = a.count + b.count }

-- What a reader sees of a buffer: the bytes before the first null byte.
abbrev pub until_nul : List ℕ → List ℕ
until_nul [] = []
until_nul (b ∷ bs) = let rest = until_nul bs in if b == 0 then [] else b ∷ rest
