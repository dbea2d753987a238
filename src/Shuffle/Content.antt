-- ===== src/Shuffle/Content.antt =====
-- `WeakShuffle` as a set, and the sizes of its four containers.
use swim_protocol.Prelude.{
  ℕ, ◌+◌, ◌-◌, ◌≡◌, ◌≢◌, refl, ap, true, false, List, [], ◌∷◌, ◌++◌, none, ite, arith, length,
  length-append, length-set, length-take, Bool-cases, Option-cases, if◌then◌else◌, inl, inr, set,
  ltb, get_elem?_in,
}
use swim_protocol.Shuffle.Defs.{
  Shuffle, remove_at, mem, without, index_of, pop_index, finalize, contains, add, discard,
}

module _ {K : Type 0} where
  abbrev pub keys : List (K × ℕ) → List K
  keys [] = []
  keys ((k, i) ∷ l) = k ∷ keys l

  pub length-remove_at : (i : ℕ) (xs : List K) → length (remove_at i xs) ≡ length xs - 1
  unfolding remove_at
  length-remove_at i xs = elim (Bool-cases (ltb i (length xs - 1))) [
    | inl before ↦
        let (last, e) = get_elem?_in xs (length xs - 1) (ground arith) in
        rw (before, e, remove_at)
          (omega (arith, length-take (length xs - 1) (set xs i last), length-set xs i last))
    | inr after ↦ rw (after, remove_at) (omega (arith, length-take (length xs - 1) xs))
  ]

module _ {K : Type 0} (dec : Discrete K) where
  abbrev pub IsDistinct : List K → Type 0
  IsDistinct [] = Unit {0}
  IsDistinct (x ∷ xs) = (mem dec x xs ≡ false) × IsDistinct xs

  -- The dictionaries hold the same elements, each once, and the list has as many values.
  pub record IsValid (s : Shuffle K) : Type 0 where
    pub distinct : IsDistinct s.weak_vals
    pub indexed : keys s.indexes ≡ s.weak_vals
    pub sized : length s.values ≡ length s.weak_vals

  pub mem-append :
      (k : K) (xs ys : List K)
      → mem dec k (xs ++ ys) ≡ (if mem dec k xs then true else mem dec k ys)
  unfolding mem
  mem-append k [] ys = refl
  mem-append k (x ∷ xs) ys = ground (arith, mem-append k xs ys)

  pub mem-without :
      (k j : K) (xs : List K) → mem dec j (without dec k xs) ≡ ite (dec k j) false (mem dec j xs)
  unfolding mem without
  mem-without k j [] = ground arith
  mem-without k j (x ∷ xs) = ground (arith, mem-without k j xs)

  -- After `add` an element is in the set exactly when it is the new one or was in before.
  pub contains-add :
      (v k : K) (s : Shuffle K)
      → contains dec (add dec v s) k ≡ ite (dec v k) true (contains dec s k)
  unfolding add contains mem
  contains-add v k s = ground (arith, mem-append k s.weak_vals (v ∷ []))

  -- After `discard` an element is in the set exactly when it was in before and is another one.
  pub contains-discard :
      (v k : K) (s : Shuffle K)
      → contains dec (discard dec v s) k ≡ ite (dec v k) false (contains dec s k)
  unfolding discard contains
  contains-discard v k s = ground (arith, mem-without v k s.weak_vals)

  keys-append : (xs ys : List (K × ℕ)) → keys (xs ++ ys) ≡ keys xs ++ keys ys
  keys-append [] ys = refl
  keys-append ((k, i) ∷ xs) ys = ap (◌∷◌ k) (keys-append xs ys)

  keys-pop_index : (k : K) (xs : List (K × ℕ)) → keys (pop_index dec k xs) ≡ without dec k (keys xs)
  unfolding pop_index without
  keys-pop_index k [] = refl
  keys-pop_index k ((x, i) ∷ xs) = ground (arith, keys-pop_index k xs)

  without_absent : (k : K) (xs : List K) → mem dec k xs ≡ false → without dec k xs ≡ xs
  unfolding mem without
  without_absent k [] h = refl
  without_absent k (x ∷ xs) h = ground (arith, without_absent k xs)

  length-without :
      (k : K) (xs : List K)
      → IsDistinct xs
      → mem dec k xs ≡ true
      → length (without dec k xs) + 1 ≡ length xs
  unfolding mem without
  length-without k [] d h = cc
  length-without k (x ∷ xs) d h = ground (arith, length-without k xs d.1, without_absent k xs)

  without-IsDistinct : (k : K) (xs : List K) → IsDistinct xs → IsDistinct (without dec k xs)
  unfolding without
  without-IsDistinct k [] d = tt
  without-IsDistinct k (x ∷ xs) d = ground (arith, without-IsDistinct k xs d.1, mem-without k x xs)

  pub append-IsDistinct :
      (k : K) (xs : List K) → IsDistinct xs → mem dec k xs ≡ false → IsDistinct (xs ++ k ∷ [])
  unfolding mem
  append-IsDistinct k [] d h = (refl, tt)
  append-IsDistinct k (x ∷ xs) d h =
      ground (arith, append-IsDistinct k xs d.1, mem-append x xs (k ∷ []))

  index_of-mem : (k : K) (xs : List (K × ℕ)) → mem dec k (keys xs) ≡ true → index_of dec k xs ≢ none
  unfolding mem index_of
  index_of-mem k [] h = cc
  index_of-mem k ((x, i) ∷ xs) h = ground (arith, index_of-mem k xs)

  pub add-IsValid : (v : K) (s : Shuffle K) → IsValid s → IsValid (add dec v s)
  unfolding add contains
  add-IsValid v s h = elim (Bool-cases (mem dec v s.weak_vals)) [
    | inl old ↦ rw old h
    | inr new ↦ rw new (record {
      distinct = append-IsDistinct v s.weak_vals h.distinct new;
      indexed = ground (arith, keys-append s.indexes ((v, length s.values) ∷ []), h.indexed);
      sized =
          omega
            (arith, h.sized, length-append s.values (v ∷ []), length-append s.weak_vals (v ∷ []));
    })
  ]

  pub discard-IsValid : (v : K) (s : Shuffle K) → IsValid s → IsValid (discard dec v s)
  unfolding discard finalize contains
  discard-IsValid v s h = elim (Bool-cases (mem dec v s.weak_vals)) [
    | inr new ↦ rw new h
    | inl old ↦ elim (Option-cases (index_of dec v s.indexes)) [
      | inl e ↦ absurd (index_of-mem v s.indexes (rw (h.indexed, old)) e)
      | inr (i, e) ↦
          rw (old, e, discard, finalize)
            (record {
              distinct = without-IsDistinct v s.weak_vals h.distinct;
              indexed = rw (keys-pop_index, h.indexed);
              sized = omega (
                arith,
                h.sized,
                length-remove_at i s.values,
                length-without v s.weak_vals h.distinct old,
              );
            })
    ]
  ]
