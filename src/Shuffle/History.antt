-- ===== src/Shuffle/History.antt =====
-- A history of `add`s and `discard`s against the set that it describes.
use swim_protocol.Prelude.{◌≡◌, ◌∙◌, ap, refl, Bool, true, false, List, [], ◌∷◌, ite, length}
use swim_protocol.Shuffle.Defs.{Shuffle, empty, mem, contains, len, add, discard}
use swim_protocol.Shuffle.Content.{
  IsValid, contains-add, contains-discard, add-IsValid, discard-IsValid,
}

pub data Op (K : Type 0) : Type 0 where
  adds : K → Op K
  discards : K → Op K

module _ {K : Type 0} (dec : Discrete K) where
  unfoldable pub run : List (Op K) → Shuffle K → Shuffle K
  run [] s = s
  run (adds v ∷ ops) s = run ops (add dec v s)
  run (discards v ∷ ops) s = run ops (discard dec v s)

  -- Whether the last operation on `k` was an `add`; `was` if there is none.
  unfoldable pub last_op : K → Bool → List (Op K) → Bool
  last_op k was [] = was
  last_op k was (adds v ∷ ops) = last_op k (ite (dec v k) true was) ops
  last_op k was (discards v ∷ ops) = last_op k (ite (dec v k) false was) ops

  run-IsValid : (ops : List (Op K)) (s : Shuffle K) → IsValid dec s → IsValid dec (run ops s)
  unfolding run
  run-IsValid [] s h = h
  run-IsValid (adds v ∷ ops) s h = run-IsValid ops _ (add-IsValid dec v s h)
  run-IsValid (discards v ∷ ops) s h = run-IsValid ops _ (discard-IsValid dec v s h)

  contains-run :
      (ops : List (Op K)) (s : Shuffle K) (k : K)
      → contains dec (run ops s) k ≡ last_op k (contains dec s k) ops
  unfolding run last_op
  contains-run [] s k = refl
  contains-run (adds v ∷ ops) s k =
      contains-run ops (add dec v s) k ∙ ap (λ b. last_op k b ops) (contains-add dec v k s)
  contains-run (discards v ∷ ops) s k =
      contains-run ops (discard dec v s) k ∙ ap (λ b. last_op k b ops) (contains-discard dec v k s)

  -- After any history of `add`s and `discard`s on an empty shuffle an element is in it exactly when
  -- the last operation on it was an `add`; the dictionaries have the same keys, each once, and the
  -- list of values has as many entries.
  pub run-last_op :
      (ops : List (Op K)) (k : K)
      → IsValid dec (run ops empty)
        × (contains dec (run ops empty) k ≡ last_op k false ops)
        × (length (run ops empty).values ≡ len dec (run ops empty))
  unfolding len contains mem
  run-last_op ops k =
      let valid = run-IsValid ops empty (record { distinct = tt; indexed = refl; sized = refl }) in
      (valid, contains-run ops empty k, valid.sized)
