-- ===== src/Members/Sized.antt =====
-- How many names `find` of swimprotocol/members.py wants, counted by the set, and how many draws give them.
use native.Mathlib.Nat.{mod-lt}
use swim_protocol.Prelude.{
  ℕ, suc, ◌+◌, ◌%◌, ◌≤◌, ◌<◌, ◌≡◌, ◌∙◌, refl, Bool, true, false, Text, text_discrete, ℕ_discrete,
  List, [], map, ◌∷◌, Option, none, some, ite, if◌then◌else◌, arith, Bool-cases, inl, inr, ap, ltb,
  length, get_elem?, ltb→lt, get_elem?_in,
}
use swim_protocol.Result.{ok}
use swim_protocol.Shuffle.{Shuffle, mem, without, contains, len, choice}
use swim_protocol.Shuffle.Content.{IsDistinct, mem-without}
use swim_protocol.Members.Defs.{insert, count_in, find_loop}

-- The names that are not excluded.
abbrev pub outside : List Text → List Text → List Text
outside exclude [] = []
outside exclude (x ∷ xs) =
    if mem text_discrete x exclude then outside exclude xs else x ∷ outside exclude xs

outside_nobody : (xs : List Text) → length (outside [] xs) ≡ length xs
unfolding mem
outside_nobody [] = refl
outside_nobody (x ∷ xs) = ap suc (outside_nobody xs)

outside_one :
    (e : Text) (es xs : List Text)
    → IsDistinct text_discrete xs
    → mem text_discrete e es ≡ false
    → (if mem text_discrete e xs then 1 else 0) + length (outside (e ∷ es) xs)
      ≡ length (outside es xs)
unfolding mem
outside_one e es [] d new = omega arith
outside_one e es (x ∷ xs) (fresh, d) new = ground (arith, outside_one e es xs d new)

-- The excluded members of the set and those that are not are all.
pub count_in-outside :
    (exclude : List Text) (shuffle : Shuffle Text)
    → IsDistinct text_discrete exclude
    → IsDistinct text_discrete shuffle.weak_vals
    → count_in exclude shuffle + length (outside exclude shuffle.weak_vals)
      ≡ len text_discrete shuffle
unfolding count_in contains len
count_in-outside [] shuffle d v = omega (arith, outside_nobody shuffle.weak_vals)
count_in-outside (e ∷ exclude) shuffle (new, d) v =
    ground
      (arith, count_in-outside exclude shuffle d v, outside_one e exclude shuffle.weak_vals v new)

length-without-le : (x : Text) (ys : List Text) → length (without text_discrete x ys) ≤ length ys
unfolding without
length-without-le x [] = omega arith
length-without-le x (y ∷ ys) = ground (arith, length-without-le x ys)

length-without-lt :
    (x : Text) (ys : List Text)
    → mem text_discrete x ys ≡ true
    → length (without text_discrete x ys) + 1 ≤ length ys
unfolding mem without
length-without-lt x [] h = cc
length-without-lt x (y ∷ ys) h = ground (arith, length-without-lt x ys, length-without-le x ys)

-- Different names that all stand in a list are no more than it has.
length-le :
    (xs ys : List Text)
    → IsDistinct text_discrete xs
    → ((n : Text) → mem text_discrete n xs ≡ true → mem text_discrete n ys ≡ true)
    → length xs ≤ length ys
unfolding mem
length-le [] ys d all = omega arith
length-le (x ∷ xs) ys (new, d) all =
    let here = length-without-lt x ys (all x (ground arith)) in
    let rest =
      length-le xs (without text_discrete x ys) d
        (λ n h. mem-without text_discrete x n ys ∙ ground (arith, all n)) in
    omega arith

abbrev value_at : Option Text → List Text → List Text
value_at none rest = rest
value_at (some x) rest = x ∷ rest

in_later :
    (n : Text) (o : Option Text) (rest : List Text)
    → mem text_discrete n rest ≡ true
    → mem text_discrete n (value_at o rest) ≡ true
unfolding mem
in_later n none rest h = h
in_later n (some x) rest h = ground (arith, h)

module _ (shuffle : Shuffle Text) where
  -- The values that are drawn.
  abbrev hits : List ℕ → List Text
  hits [] = []
  hits (r ∷ draws) = value_at (get_elem? shuffle.values (r % length shuffle.values)) (hits draws)

  -- A draw of the index of a value hits it.
  pub hits_index :
      (draws : List ℕ) (i : ℕ) (n : Text)
      → get_elem? shuffle.values i ≡ some n
      → mem ℕ_discrete i (map (λ r. r % length shuffle.values) draws) ≡ true
      → mem text_discrete n (hits draws) ≡ true
  unfolding mem
  hits_index [] i n at h = cc
  hits_index (r ∷ draws) i n at h = elim (ℕ_discrete (r % length shuffle.values) i) [
    | yes e ↦
        let drawn : get_elem? shuffle.values (r % length shuffle.values) ≡ some n =
          ap (get_elem? shuffle.values) e ∙ at in
        rw drawn (ground arith)
    | no ne ↦
        in_later n (get_elem? shuffle.values (r % length shuffle.values)) (hits draws)
          (hits_index draws i n at (ground (arith, h)))
  ]

module _ (num : ℕ) (shuffle : Shuffle Text) where
  -- The loop returns once the draws hit every value, whatever their order and however often one is hit.
  pub loop_returns :
      (draws : List ℕ) (names : List Text)
      → IsDistinct text_discrete shuffle.values
      → num ≤ length shuffle.values
      → ((n : Text)
          → mem text_discrete n shuffle.values ≡ true
          → (if mem text_discrete n names then true else mem text_discrete n (hits shuffle draws))
            ≡ true)
      → (found : List Text) × (find_loop num shuffle draws names ≡ some (ok found))
  unfolding find_loop choice mem
  loop_returns [] names d enough all =
      let full = length-le shuffle.values names d (λ n h. ground (arith, all n)) in
      (names, ground arith)
  loop_returns (r ∷ draws) names d enough all = elim (Bool-cases (ltb (length names) num)) [
    | inr full ↦ (names, rw full)
    | inl more ↦
        let some_there : 0 < length shuffle.values = omega (arith, ltb→lt _ _ more) in
        let (x, drawn) =
          get_elem?_in shuffle.values (r % length shuffle.values) (mod-lt r some_there) in
        rw (more, drawn, choice)
          (loop_returns draws (insert x names) d enough
            (λ n h. still n x (mem text_discrete n (hits shuffle draws)) (rw drawn at all n h)))
  ]
    where
      still :
          (n x : Text) (later : Bool)
          → (if mem text_discrete n names then true else ite (text_discrete x n) true later) ≡ true
          → (if mem text_discrete n (insert x names) then true else later) ≡ true
      still n x later h = ground arith
