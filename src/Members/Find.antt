-- ===== src/Members/Find.antt =====
-- The random choice that `find` of swimprotocol/members.py makes.
use swim_protocol.Prelude.{
  ℕ, ◌+◌, ◌-◌, ◌%◌, ◌≤◌, ◌<◌, ◌≡◌, ◌∙◌, true, false, Text, text_discrete, ℕ_discrete, List, [], map,
  ◌∷◌, Option, some, arith, Option-cases, Bool-cases, inl, inr, ap, subst, ltb, length, get_elem?,
  min, ltb→lt,
}
use swim_protocol.Result.{Result, ok}
use swim_protocol.Status.{Status}
use swim_protocol.Shuffle.{Shuffle, mem, choice, len}
use swim_protocol.Shuffle.Content.{IsDistinct}
use swim_protocol.Shuffle.Draws.{mem_of_get_elem?}
use swim_protocol.Shuffle.Choice.{index_of_elem}
use swim_protocol.Members.Sized.{outside, count_in-outside, hits_index, loop_returns}
use swim_protocol.Members.Defs.{Members, insert, count_in, find_loop, find}

-- Names that were drawn from a list, each once.
pub record Drawn (values : List Text) (names : List Text) : Type 0 where
  pub distinct : IsDistinct text_discrete names
  pub among : (n : Text) → mem text_discrete n names ≡ true → mem text_discrete n values ≡ true

Drawn-insert :
    (values : List Text) (n : Text) (names : List Text)
    → mem text_discrete n values ≡ true
    → Drawn values names
    → Drawn values (insert n names)
unfolding mem
Drawn-insert values n names h d = elim (Bool-cases (mem text_discrete n names)) [
  | inl old ↦ rw old d
  | inr new ↦
      rw new (record { distinct = (new, d.distinct); among = λ k m. ground (arith, d.among k) })
]

module _ (num : ℕ) (shuffle : Shuffle Text) where
  stopped :
      (names found : List Text)
      → length names ≤ num
      → Drawn shuffle.values names
      → ltb (length names) num ≡ false
      → Path (Option (Result (List Text))) (some (ok names)) (some (ok found))
      → (length found ≡ num) × Drawn shuffle.values found
  stopped names found le d full e =
      let same : names ≡ found = cc in
      subst (λ (l : List Text). (length l ≡ num) × Drawn shuffle.values l) same (ground arith, d)

  length-insert-le : (n : Text) (names : List Text) → length (insert n names) ≤ length names + 1
  length-insert-le n names = ground arith

  -- What the loop returns has the wanted size, and is drawn from the list of values.
  find_loop-Drawn :
      (draws : List ℕ) (names found : List Text)
      → length names ≤ num
      → Drawn shuffle.values names
      → find_loop num shuffle draws names ≡ some (ok found)
      → (length found ≡ num) × Drawn shuffle.values found
  unfolding find_loop choice
  find_loop-Drawn [] names found le d e = elim (Bool-cases (ltb (length names) num)) [
    | inl more ↦ absurd (ground arith)
    | inr full ↦ stopped names found le d full (rw full at e)
  ]
  find_loop-Drawn (r ∷ draws) names found le d e = elim (Bool-cases (ltb (length names) num)) [
    | inr full ↦ stopped names found le d full (rw full at e)
    | inl more ↦ elim (Option-cases (get_elem? shuffle.values (r % length shuffle.values))) [
      | inl nothing ↦ absurd (ground arith)
      | inr (x, drawn) ↦
          find_loop-Drawn draws (insert x names) found
            (omega (arith, length-insert-le x names, ltb→lt _ _ more))
            (Drawn-insert shuffle.values x names
              (mem_of_get_elem? text_discrete x shuffle.values _ drawn) d)
            (rw (more, drawn, choice) at e)
    ]
  ]

-- The members with the status that are not excluded.
abbrev pub candidates : Status → List Text → Members → List Text
candidates status exclude s = outside exclude (s.statuses status).weak_vals

module _ (count : ℕ) (status : Status) (exclude : List Text) (s : Members) where
  size_lem :
      IsDistinct text_discrete exclude
      → IsDistinct text_discrete (s.statuses status).weak_vals
      → min (len text_discrete (s.statuses status) - count_in exclude (s.statuses status)) count
        ≡ min (length (candidates status exclude s)) count
  size_lem excluded members =
      ap (λ (k : ℕ). min k count)
        (omega (arith, count_in-outside exclude (s.statuses status) excluded members))

  -- If `find` returns names for these draws, with a set of names to exclude, they are different names
  -- from the list of values, as many as are wanted or, if there are fewer, as the set of the status
  -- has members that are not excluded.
  pub find-Drawn :
      (draws : List ℕ) (found : List Text)
      → IsDistinct text_discrete exclude
      → IsDistinct text_discrete (s.statuses status).weak_vals
      → find count status exclude draws s ≡ some (ok found)
      → (length found ≡ min (length (candidates status exclude s)) count)
        × Drawn (s.statuses status).values found
  unfolding find mem
  find-Drawn draws found excluded members e =
      let (sized, drawn) =
        find_loop-Drawn
          (min (len text_discrete (s.statuses status) - count_in exclude (s.statuses status)) count)
          (s.statuses status) draws [] found (omega arith)
          (record { distinct = tt; among = λ n h. cc }) e in
      (sized ∙ size_lem excluded members, drawn)

  -- If no value stands in the list twice and the list is as long as the set, `find` returns names for
  -- any draws, in any order and with repetitions, that draw every index of the list.
  pub find_returns :
      (draws : List ℕ)
      → IsDistinct text_discrete (s.statuses status).values
      → length (s.statuses status).values ≡ len text_discrete (s.statuses status)
      → ((i : ℕ)
          → i < length (s.statuses status).values
          → mem ℕ_discrete i (map (λ r. r % length (s.statuses status).values) draws) ≡ true)
      → (found : List Text) × (find count status exclude draws s ≡ some (ok found))
  unfolding find mem
  find_returns draws d sized all =
      loop_returns
        (min (len text_discrete (s.statuses status) - count_in exclude (s.statuses status)) count)
        (s.statuses status) draws [] d (omega (arith, sized))
        (λ n h.
          let (i, small, at) = index_of_elem text_discrete n (s.statuses status).values h in
          hits_index (s.statuses status) draws i n at (all i small))

  -- `find` does not leave out an excluded member: wherever the list begins with one, it alone is
  -- excluded, one member is wanted and the set has another, the draw of the first index makes it
  -- the result.
  find_excluded :
      (name : Text) (rest : List Text)
      → (s.statuses status).values ≡ name ∷ rest
      → exclude ≡ name ∷ []
      → 2 ≤ len text_discrete (s.statuses status)
      → count ≡ 1
      → find count status exclude (0 ∷ []) s ≡ some (ok (name ∷ []))
  unfolding find find_loop count_in choice mem
  find_excluded name rest values out more one = ground arith
