-- ===== src/Address/Samples.antt =====
-- Integers for tests of addresses: numbers written in strokes.
use swim_protocol.Prelude.{ℕ, zero, suc, ◌≡◌, refl, ap, false, Text, [], ◌∷◌, ℕ_discrete, length}
use swim_protocol.Result.{ok}
use swim_protocol.Address.Defs.{has_colon, Integer}

abbrev pub strokes : ℕ → Text
strokes zero = []
strokes (suc n) = 49 ∷ strokes n

pub length-strokes : (n : ℕ) → length (strokes n) ≡ n
length-strokes zero = refl
length-strokes (suc n) = ap suc (length-strokes n)

pub has_colon-strokes : (n : ℕ) → has_colon (strokes n) ≡ false
unfolding ℕ_discrete
has_colon-strokes zero = refl
has_colon-strokes (suc n) = has_colon-strokes n

abbrev pub numbers : Integer
numbers = record {
  Int = ℕ;
  str = strokes;
  int = λ text. ok (length text);
  int-str = λ n. ap ok (length-strokes n);
  has_colon-str = has_colon-strokes;
}
