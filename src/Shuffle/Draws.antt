-- ===== src/Shuffle/Draws.antt =====
-- What `choice` can draw: right while nothing but the newest content is discarded, and wrong once
-- a second element is discarded, since `_finalize` leaves the index of the moved value as it was.
use swim_protocol.Prelude.{
  ℕ, zero, suc, ◌+◌, ◌-◌, ◌≤◌, ◌<◌, ◌≡◌, refl, sym, ap, true, false, List, [], ◌∷◌, ◌++◌, some, ◌∙◌,
  ite, arith, length, length-append, get_elem?, set, set-append, take-append, length-set, lt→ltb,
  dec_lt, get_elem?-append_left, get_elem?-append_last, List-cases_last, Bool-cases, inl, inr,
}
use swim_protocol.Shuffle.Defs.{
  Shuffle, remove_at, mem, index_of, finalize, contains, add, discard, init,
}
use swim_protocol.Shuffle.Content.{IsDistinct, mem-append, mem-without, append-IsDistinct}

module _ {K : Type 0} where
  abbrev pub numbered : ℕ → List K → List (K × ℕ)
  numbered n [] = []
  numbered n (x ∷ xs) = (x, n) ∷ numbered (suc n) xs

  numbered-append :
      (n : ℕ) (xs : List K) (x : K)
      → numbered n (xs ++ x ∷ []) ≡ numbered n xs ++ (x, n + length xs) ∷ []
  numbered-append n [] x = ground arith
  numbered-append n (y ∷ xs) x = ground (arith, numbered-append (suc n) xs x)

  remove_at_last : (xs : List K) (x : K) → remove_at (length xs) (xs ++ x ∷ []) ≡ xs
  unfolding remove_at
  remove_at_last xs x =
      let e : length (xs ++ x ∷ []) - 1 ≡ length xs = omega (arith, length-append xs (x ∷ [])) in
      ground (arith, e, take-append xs (x ∷ []))

  pub remove_at_before :
      (i : ℕ) (xs : List K) (x : K) → i < length xs → remove_at i (xs ++ x ∷ []) ≡ set xs i x
  unfolding remove_at
  remove_at_before i xs x h =
      let e : length (xs ++ x ∷ []) - 1 ≡ length xs = omega (arith, length-append xs (x ∷ [])) in
      let last : length (xs ++ x ∷ []) - 1 ≡ length (set xs i x) =
        omega (arith, e, length-set xs i x) in
      rw (e, lt→ltb i (length xs) h, get_elem?-append_last, set-append xs (x ∷ []) i x h)
        (rw last (take-append (set xs i x) (x ∷ [])))

module _ {K : Type 0} (dec : Discrete K) where
  -- The list holds the elements of the set, and every index is right.
  pub record IsSynced (s : Shuffle K) : Type 0 where
    pub distinct : IsDistinct dec s.weak_vals
    pub values_right : s.values ≡ s.weak_vals
    pub indexes_right : s.indexes ≡ numbered 0 s.weak_vals

  add-IsSynced : (v : K) (s : Shuffle K) → IsSynced s → IsSynced (add dec v s)
  unfolding add contains
  add-IsSynced v s h = elim (Bool-cases (mem dec v s.weak_vals)) [
    | inl old ↦ rw old h
    | inr new ↦ rw new (record {
      distinct = append-IsDistinct dec v s.weak_vals h.distinct new;
      values_right = ground (arith, h.values_right);
      indexes_right =
          ground (arith, h.values_right, h.indexes_right, numbered-append 0 s.weak_vals v);
    })
  ]

  -- A shuffle that was only added to is in order.
  pub init-IsSynced : (vals : List K) (s : Shuffle K) → IsSynced s → IsSynced (init dec vals s)
  unfolding init
  init-IsSynced [] s h = h
  init-IsSynced (v ∷ vals) s h = init-IsSynced vals (add dec v s) (add-IsSynced v s h)

  index_of-numbered :
      (k : K) (n : ℕ) (xs : List K)
      → mem dec k xs ≡ true
      → (i : ℕ) × (index_of dec k (numbered n xs) ≡ some (n + i))
        × (get_elem? xs i ≡ some k)
        × (i < length xs)
  unfolding mem index_of
  index_of-numbered k n [] h = cc
  index_of-numbered k n (x ∷ xs) h = elim (dec x k) [
    | yes e ↦ (0, ground arith, ground arith, omega arith)
    | no ne ↦
        let (i, at, found, small) = index_of-numbered k (suc n) xs (ground arith) in
        (suc i, ground arith, found, omega arith)
  ]

  pub mem_of_get_elem? :
      (v : K) (xs : List K) (i : ℕ) → get_elem? xs i ≡ some v → mem dec v xs ≡ true
  unfolding mem
  mem_of_get_elem? v [] i e = cc
  mem_of_get_elem? v (x ∷ xs) zero e = ground arith
  mem_of_get_elem? v (x ∷ xs) (suc i) e = ground (arith, mem_of_get_elem? v xs i e)

  mem-set :
      (k x : K) (xs : List K) (i : ℕ) (v : K)
      → IsDistinct dec xs
      → get_elem? xs i ≡ some v
      → mem dec k (set xs i x) ≡ ite (dec x k) true (ite (dec v k) false (mem dec k xs))
  unfolding mem
  mem-set k x [] i v d e = cc
  mem-set k x (y ∷ ys) zero v d e = ground arith
  mem-set k x (y ∷ ys) (suc i) v d e =
      ground (arith, mem-set k x ys i v d.1 e, mem_of_get_elem? v ys i e)

  pub IsDistinct-append_last :
      (ys : List K) (y : K)
      → IsDistinct dec (ys ++ y ∷ [])
      → IsDistinct dec ys × (mem dec y ys ≡ false)
  unfolding mem
  IsDistinct-append_last [] y d = (tt, refl)
  IsDistinct-append_last (x ∷ ys) y d =
      ground (arith, IsDistinct-append_last ys y d.1, mem-append dec x ys (y ∷ []))

  mem-remove_at_last :
      (k : K) (ys : List K) (y : K) (i : ℕ) (v : K)
      → IsDistinct dec (ys ++ y ∷ [])
      → get_elem? (ys ++ y ∷ []) i ≡ some v
      → i ≤ length ys
      → mem dec k (remove_at i (ys ++ y ∷ [])) ≡ ite (dec v k) false (mem dec k (ys ++ y ∷ []))
  unfolding mem
  mem-remove_at_last k ys y i v d e h = elim (dec_lt i (length ys)) [
    | yes before ↦ rw (remove_at_before i ys y before) (
        ground (
          arith,
          IsDistinct-append_last ys y d,
          get_elem?-append_left ys (y ∷ []) i before,
          mem-set k y ys i v,
          mem_of_get_elem? v ys i,
          mem-append dec k ys (y ∷ []),
        ))
    | no after ↦
        let at : i ≡ length ys = omega arith in
        rw (at, remove_at_last ys y)
          (ground (
            arith,
            IsDistinct-append_last ys y d,
            get_elem?-append_last ys y,
            mem-append dec k ys (y ∷ []),
          ))
  ]

  -- What is left of a list after the element at an index is replaced by the last one.
  mem-remove_at :
      (k : K) (xs : List K) (i : ℕ) (v : K)
      → IsDistinct dec xs
      → get_elem? xs i ≡ some v
      → i < length xs
      → mem dec k (remove_at i xs) ≡ ite (dec v k) false (mem dec k xs)
  mem-remove_at k xs i v d e h = elim (List-cases_last xs) [
    | inl nothing ↦ absurd (omega (arith, ap length nothing))
    | inr (ys, y, split) ↦ rw split (
        mem-remove_at_last k ys y i v (rw split at d) (rw split at e)
          (omega (arith, ap length split, length-append ys (y ∷ []))))
  ]

  -- The first `discard` after any number of `add`s leaves the list with exactly the elements of
  -- the set.
  pub discard-values :
      (v k : K) (s : Shuffle K)
      → IsSynced s
      → mem dec k (discard dec v s).values ≡ contains dec (discard dec v s) k
  unfolding discard finalize contains
  discard-values v k s h = elim (Bool-cases (mem dec v s.weak_vals)) [
    | inr new ↦ rw new (rw h.values_right)
    | inl old ↦
        let (i, at, found, small) = index_of-numbered v 0 s.weak_vals old in
        let here : 0 + i ≡ i = omega arith in
        rw (old, h.indexes_right, at, h.values_right, discard, finalize, here)
          (mem-remove_at k s.weak_vals i v h.distinct found small
            ∙ sym (mem-without dec v k s.weak_vals))
  ]
