-- ===== src/Shuffle/Defs.antt =====
-- swimprotocol/shuffle.py: `WeakShuffle`. An element stands for the weak reference to it too:
-- references to live objects compare and hash as the objects do.
use swim_protocol.Prelude.{
  ℕ, ◌-◌, ◌%◌, Bool, true, false, List, [], ◌∷◌, ◌++◌, Option, none, some, ite, length, get_elem?,
  set, take, ltb, if◌then◌else◌,
}
use swim_protocol.Result.{Result, ok, raise, key_error, assertion_error}

-- `_weak_vals_rev` has the keys of `_weak_vals`, and is never read.
pub record Shuffle (K : Type 0) : Type 0 where
  pub weak_vals : List K
  pub indexes : List (K × ℕ)
  pub values : List K

abbrev pub empty : {K : Type 0} → Shuffle K
empty = record { weak_vals = []; indexes = []; values = [] }

-- The end of `_finalize`: the last value takes the place of the one at `index`. (Python would raise
-- IndexError on an empty list; there is an index only where there is a value, by `IsValid`.)
unfoldable pub remove_at : {K : Type 0} → ℕ → List K → List K
remove_at index values =
    let end_index = length values - 1 in
    if ltb index end_index
    then (elim (get_elem? values end_index) [
      | none ↦ values
      | some last ↦ take end_index (set values index last)
    ])
    else take end_index values

module _ {K : Type 0} (dec : Discrete K) where
  unfoldable pub mem : K → List K → Bool
  mem k [] = false
  mem k (x ∷ xs) = ite (dec x k) true (mem k xs)

  -- `del d[k]` on the keys of a dictionary
  unfoldable pub without : K → List K → List K
  without k [] = []
  without k (x ∷ xs) = let rest = without k xs in ite (dec x k) rest (x ∷ rest)

  -- `d.get(k)` and the rest of `d.pop(k)`
  unfoldable pub index_of : K → List (K × ℕ) → Option ℕ
  index_of k [] = none
  index_of k ((x, i) ∷ xs) = ite (dec x k) (some i) (index_of k xs)

  unfoldable pub pop_index : K → List (K × ℕ) → List (K × ℕ)
  pop_index k [] = []
  pop_index k ((x, i) ∷ xs) = let rest = pop_index k xs in ite (dec x k) rest ((x, i) ∷ rest)

  unfoldable pub finalize : K → Shuffle K → Shuffle K
  finalize val s = elim (index_of val s.indexes) [
    | none ↦ s
    | some index ↦ record s { indexes = pop_index val s.indexes; values = remove_at index s.values }
  ]

  unfoldable pub contains : Shuffle K → K → Bool
  contains s k = mem k s.weak_vals

  unfoldable pub len : Shuffle K → ℕ
  len s = length s.weak_vals

  unfoldable pub add : K → Shuffle K → Shuffle K
  unfolding contains
  add val s = if contains s val then s else record {
    weak_vals = s.weak_vals ++ val ∷ [];
    indexes = s.indexes ++ (val, length s.values) ∷ [];
    values = s.values ++ val ∷ [];
  }

  -- The same happens when the object itself is collected: the dictionaries lose the key, and the
  -- reference calls `_finalize`.
  unfoldable pub discard : K → Shuffle K → Shuffle K
  unfolding contains finalize
  discard val s =
      if contains s val then finalize val (record s { weak_vals = without val s.weak_vals }) else s

  unfoldable pub init : List K → Shuffle K → Shuffle K
  init [] s = s
  init (val ∷ vals) s = init vals (add val s)

  -- `random.choice` draws `r`; `alive` tells which objects still exist.
  unfoldable pub choice : (K → Bool) → Shuffle K → ℕ → Result K
  choice alive s r = elim (get_elem? s.values (r % length s.values)) [
    | none ↦ raise key_error
    | some val ↦ if alive val then ok val else raise assertion_error
  ]
