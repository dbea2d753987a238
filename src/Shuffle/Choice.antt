-- ===== src/Shuffle/Choice.antt =====
-- `choice` of `WeakShuffle`: a draw from the set while its list is faithful, and the draw of an
-- element that is gone after a second `discard`.
use native.Mathlib.Nat.{mod-eq_of_lt}
use swim_protocol.Prelude.{
  ℕ, suc, ◌+◌, ◌%◌, ◌<◌, ◌≡◌, ◌≢◌, refl, sym, ap, ◌∙◌, ◌⊎◌, Bool, true, false, List, [], ◌∷◌, ◌++◌,
  none, some, arith, length, get_elem?, get_elem?_in, take, if◌then◌else◌, if_pos, if_neg, inl, inr,
}
use swim_protocol.Result.{ok, raise, key_error, assertion_error}
use swim_protocol.Shuffle.Defs.{
  Shuffle, empty, remove_at, mem, index_of, pop_index, finalize, contains, discard, init, choice,
}
use swim_protocol.Shuffle.Content.{IsDistinct, mem-append, mem-without, contains-discard}
use swim_protocol.Shuffle.Draws.{
  IsSynced, init-IsSynced, numbered, IsDistinct-append_last, mem_of_get_elem?, remove_at_before,
  discard-values,
}

module _ {K : Type 0} (dec : Discrete K) where
  -- The list holds exactly the elements of the set.
  abbrev pub IsFaithful : Shuffle K → Type 0
  IsFaithful s = (k : K) → mem dec k s.values ≡ contains dec s k

  -- Every element of a list stands at an index.
  pub index_of_elem :
      (v : K) (xs : List K)
      → mem dec v xs ≡ true
      → (i : ℕ) × (i < length xs) × (get_elem? xs i ≡ some v)
  unfolding mem
  index_of_elem v [] h = cc
  index_of_elem v (x ∷ xs) h = elim (dec x v) [
    | yes e ↦ (0, omega arith, ground arith)
    | no ne ↦ let (i, small, e) = index_of_elem v xs (ground arith) in (suc i, omega arith, e)
  ]

  -- What a draw finds: nothing in an empty list, and otherwise the value at some index.
  drawn :
      (xs : List K) (r : ℕ)
      → ((xs ≡ []) × (get_elem? xs (r % length xs) ≡ none))
        ⊎ ((x : K) × (get_elem? xs (r % length xs) ≡ some x) × (mem dec x xs ≡ true))
  drawn [] r = inl (refl, refl)
  drawn (y ∷ ys) r =
      let (x, e) = get_elem?_in (y ∷ ys) (r % length (y ∷ ys)) (omega arith) in
      inr (x, e, mem_of_get_elem? dec x (y ∷ ys) _ e)

  module _ (alive : K → Bool) (s : Shuffle K) (faithful : IsFaithful s)
      (live : (k : K) → contains dec s k ≡ true → alive k ≡ true) where
    -- The outcomes of a draw.
    choice_cases :
        (r : ℕ)
        → ((s.values ≡ []) × (choice dec alive s r ≡ raise key_error))
          ⊎ ((x : K) × (choice dec alive s r ≡ ok x) × (contains dec s x ≡ true))
    unfolding choice
    choice_cases r = elim (drawn s.values r) [
      | inl (nothing, e) ↦ inl (nothing, rw (e, choice))
      | inr (x, e, m) ↦
          let c : contains dec s x ≡ true = sym (faithful x) ∙ m in
          inr (x, rw (e, choice, live x c), c)
    ]

    choice_reach : (v : K) → contains dec s v ≡ true → (r : ℕ) × (choice dec alive s r ≡ ok v)
    unfolding choice
    choice_reach v c =
        let (i, small, e) = index_of_elem v s.values (faithful v ∙ c) in
        (i, rw (mod-eq_of_lt small, e, choice, live v c))

    -- From a faithful shuffle whose elements are alive, `choice` can return exactly the elements of
    -- the set, never fails its assertion, and raises KeyError only if the set is empty.
    pub choice-contains :
        (v : K)
        → (contains dec s v ≡ true → (r : ℕ) × (choice dec alive s r ≡ ok v))
          × ((r : ℕ) → choice dec alive s r ≡ ok v → contains dec s v ≡ true)
          × ((r : ℕ) → choice dec alive s r ≢ raise assertion_error)
          × ((r : ℕ) → choice dec alive s r ≡ raise key_error → contains dec s v ≡ false)
    unfolding mem
    choice-contains v = (
      choice_reach v,
      λ r e. ground (arith, choice_cases r),
      λ r e. ground (arith, choice_cases r),
      λ r e. ground (arith, choice_cases r, faithful v),
    )

  IsSynced-IsFaithful : (s : Shuffle K) → IsSynced dec s → IsFaithful s
  unfolding contains
  IsSynced-IsFaithful s h k = rw h.values_right

  -- A shuffle that was only added to is faithful, and so it is after one `discard`.
  discard-IsFaithful :
      (vals : List K) (v : K)
      → IsFaithful (init dec vals empty) × IsFaithful (discard dec v (init dec vals empty))
  discard-IsFaithful vals v =
      let synced =
        init-IsSynced dec vals empty
          (record { distinct = tt; values_right = refl; indexes_right = refl }) in
      (IsSynced-IsFaithful _ synced, λ k. discard-values dec v k _ synced)

  index_of-pop_index_ne :
      (k j : K) (xs : List (K × ℕ))
      → k ≢ j
      → index_of dec j (pop_index dec k xs) ≡ index_of dec j xs
  unfolding index_of pop_index
  index_of-pop_index_ne k j [] ne = refl
  index_of-pop_index_ne k j ((x, i) ∷ xs) ne = ground (arith, index_of-pop_index_ne k j xs)

  index_of-numbered_last :
      (n : ℕ) (xs : List K) (z : K)
      → mem dec z xs ≡ false
      → index_of dec z (numbered n (xs ++ z ∷ [])) ≡ some (n + length xs)
  unfolding index_of mem
  index_of-numbered_last n [] z h = ground arith
  index_of-numbered_last n (x ∷ xs) z h = ground (arith, index_of-numbered_last (suc n) xs z)

  module _ (a b z : K) (mid : List K) where
    abbrev before : List K
    before = a ∷ b ∷ mid

    first_in : mem dec a (before ++ z ∷ []) ≡ true
    unfolding mem
    first_in = ground arith

    first_index : index_of dec a (numbered 0 (before ++ z ∷ [])) ≡ some 0
    unfolding index_of
    first_index = ground arith

    last_in : mem dec z (before ++ z ∷ []) ≡ true
    unfolding mem
    last_in = ground (arith, mem-append dec z mid (z ∷ []))

    last_other : mem dec z before ≡ false → a ≢ z
    unfolding mem
    last_other h e = ground arith

    -- The first value goes: the last one takes its place, and keeps its index.
    discard_first :
        (s : Shuffle K)
        → IsSynced dec s
        → s.weak_vals ≡ before ++ z ∷ []
        → ((discard dec a s).values ≡ z ∷ b ∷ mid)
          × (index_of dec z (discard dec a s).indexes ≡ some (length before))
          × (mem dec z (discard dec a s).weak_vals ≡ true)
    unfolding discard finalize contains
    discard_first s h e =
        let d : IsDistinct dec (before ++ z ∷ []) = rw e at h.distinct in
        let fresh = (IsDistinct-append_last dec before z d).1 in
        let here : mem dec a s.weak_vals ≡ true = rw e first_in in
        let at : index_of dec a s.indexes ≡ some 0 = rw (h.indexes_right, e) first_index in
        rw (here, at, discard, finalize, h.values_right, h.indexes_right, e)
          (
            remove_at_before 0 before z (omega arith),
            index_of-pop_index_ne a z _ (last_other fresh)
                ∙ index_of-numbered_last 0 before z fresh
                ∙ ap some (omega arith),
            mem-without dec a z (before ++ z ∷ [])
                ∙ if_neg (dec a z) (last_other fresh) false _
                ∙ last_in,
          )

    -- Then the value that was last goes too: its old index is past the end, so another is dropped.
    discard_moved :
        (s : Shuffle K)
        → s.values ≡ z ∷ b ∷ mid
        → index_of dec z s.indexes ≡ some (length before)
        → mem dec z s.weak_vals ≡ true
        → (discard dec z s).values ≡ take (length mid + 1) (z ∷ b ∷ mid)
    unfolding discard finalize contains remove_at
    discard_moved s v i m = ground arith

    -- The first value is discarded, and then the last one, which had taken its place: it leaves the
    -- set, but stays in the list, where `choice` still draws it. If it no longer exists, the
    -- assertion fails.
    pub discard_stale :
        (s : Shuffle K)
        → IsSynced dec s
        → s.weak_vals ≡ before ++ z ∷ []
        → let t = discard dec z (discard dec a s) in
          (contains dec t z ≡ false)
          × ((alive : K → Bool)
              → choice dec alive t 0 ≡ (if alive z then ok z else raise assertion_error))
    unfolding choice
    discard_stale s h e =
        let (v, i, m) = discard_first s h e in
        let left = discard_moved (discard dec a s) v i m in
        (
          contains-discard dec z z (discard dec a s) ∙ if_pos (dec z z) refl _ _,
          λ alive. rw left (ground arith),
        )
