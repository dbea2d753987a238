-- ===== src/Udp/Config/Samples.antt =====
-- A name that resolves to two addresses, for tests.
use swim_protocol.Prelude.{
  ◌≡◌, ◌∙◌, refl, Bool-cases, inl, inr, Text, text_discrete, List, [], ◌∷◌, arith, if◌then◌else◌,
}
use swim_protocol.Result.{ok}
use swim_protocol.Shuffle.{mem}
use swim_protocol.Shuffle.Content.{IsDistinct}
use swim_protocol.Address.Samples.{numbers}
use swim_protocol.Udp.Config.Defs.{Network}

-- Each element once, at its last place.
abbrev pub once : List Text → List Text
once [] = []
once (x ∷ xs) = if mem text_discrete x xs then once xs else x ∷ once xs

pub mem-once : (x : Text) (xs : List Text) → mem text_discrete x (once xs) ≡ mem text_discrete x xs
unfolding mem
mem-once x [] = refl
mem-once x (y ∷ ys) = ground (arith, mem-once x ys)

pub once-IsDistinct : (xs : List Text) → IsDistinct text_discrete (once xs)
unfolding mem
once-IsDistinct [] = tt
once-IsDistinct (x ∷ xs) = elim (Bool-cases (mem text_discrete x xs)) [
  | inl h ↦ rw h (once-IsDistinct xs)
  | inr h ↦ rw h (mem-once x xs ∙ h, once-IsDistinct xs)
]

abbrev pub net : Network numbers
net = record {
  gethostbyname_ex = λ host. ok ((7 ∷ []) ∷ (8 ∷ []) ∷ []);
  sockname = λ host port. ok (7 ∷ []);
  list = once;
  mem-list = mem-once;
  list-IsDistinct = once-IsDistinct;
}
