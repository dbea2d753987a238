-- ===== src/Config/Split.antt =====
-- `split(',')` of swimprotocol/config.py undoes the joining of names with commas.
use swim_protocol.Prelude.{
  ◌≡◌, ◌∙◌, refl, ap, Bool, true, false, Text, List, [], ◌∷◌, ◌++◌, arith, ite, ℕ_discrete,
}
use swim_protocol.Config.Defs.{comma, split}

-- `','.join(names)`
abbrev pub join : List Text → Text
join [] = []
join (name ∷ []) = name
join (name ∷ other ∷ names) = name ++ comma ∷ join (other ∷ names)

abbrev pub has_comma : Text → Bool
has_comma [] = false
has_comma (c ∷ cs) = ite (ℕ_discrete c comma) true (has_comma cs)

abbrev pub AllPlain : List Text → Type 0
AllPlain [] = Unit {0}
AllPlain (name ∷ names) = (has_comma name ≡ false) × AllPlain names

split_plain : (name : Text) → has_comma name ≡ false → split name ≡ name ∷ []
unfolding split
split_plain [] h = refl
split_plain (c ∷ cs) h = ground (arith, split_plain cs)

split-comma :
    (name rest : Text) → has_comma name ≡ false → split (name ++ comma ∷ rest) ≡ name ∷ split rest
unfolding split ℕ_discrete
split-comma [] rest h = refl
split-comma (c ∷ cs) rest h = ground (arith, split-comma cs rest)

pub split-join :
    (name : Text) (names : List Text)
    → AllPlain (name ∷ names)
    → split (join (name ∷ names)) ≡ name ∷ names
split-join name [] (plain, all) = split_plain name plain
split-join name (other ∷ names) (plain, all) =
    split-comma name (join (other ∷ names)) plain ∙ ap (name ∷◌) (split-join other names all)
