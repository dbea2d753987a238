-- ===== src/Prelude/Texts.antt =====
-- `str` as a list of code points and `bytes` as a list of byte values.
use Prim.Native.Nat.{ℕ}
use mathlib.Core.Path.{◌≡◌, refl, ap₂}
use mathlib.Core.List.{List, [], ◌∷◌}
use native.Mathlib.Decide.{ℕ_discrete}

abbrev pub Text : Type 0
Text = List ℕ

abbrev pub Bytes : Type 0
Bytes = List ℕ

heads : {x y : ℕ} {xs ys : Text} → Dec (x ≡ y) → Dec (xs ≡ ys) → Dec (Path Text (x ∷ xs) (y ∷ ys))
heads (yes p) (yes q) = yes (ap₂ ◌∷◌ p q)
heads (yes p) (no n) = no (λ e. n (cc))
heads (no n) q = no (λ e. n (cc))

unfoldable pub text_discrete : Discrete Text
unfolding heads ℕ_discrete
text_discrete [] [] = yes refl
text_discrete [] (y ∷ ys) = no (λ e. cc)
text_discrete (x ∷ xs) [] = no (λ e. cc)
text_discrete (x ∷ xs) (y ∷ ys) = heads (ℕ_discrete x y) (text_discrete xs ys)
