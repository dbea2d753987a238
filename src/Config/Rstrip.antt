-- ===== src/Config/Rstrip.antt =====
-- `rstrip` of swimprotocol/config.py: what is stripped, and what stays.
use swim_protocol.Prelude.{◌≡◌, refl, true, false, Text, [], ◌∷◌, ◌++◌}
use swim_protocol.Config.Defs.{is_line_end, rstrip}

-- Only line ends.
abbrev pub AllLineEnds : Text → Type 0
AllLineEnds [] = Unit {0}
AllLineEnds (c ∷ cs) = (is_line_end c ≡ true) × AllLineEnds cs

-- The last character, if any, is not a line end.
abbrev pub IsStripped : Text → Type 0
IsStripped [] = Unit {0}
IsStripped (c ∷ []) = is_line_end c ≡ false
IsStripped (c ∷ d ∷ ds) = IsStripped (d ∷ ds)

rstrip_all : (ends : Text) → AllLineEnds ends → rstrip ends ≡ []
unfolding rstrip
rstrip_all [] all = refl
rstrip_all (c ∷ cs) (h, all) = rw (rstrip_all cs all, h) refl

-- Line ends after stripped text are what is stripped off it.
pub rstrip_ends :
    (text ends : Text) → IsStripped text → AllLineEnds ends → rstrip (text ++ ends) ≡ text
unfolding rstrip
rstrip_ends [] ends kept all = rstrip_all ends all
rstrip_ends (c ∷ []) ends kept all = rw (rstrip_all ends all, kept) refl
rstrip_ends (c ∷ d ∷ ds) ends kept all = rw (rstrip_ends (d ∷ ds) ends kept all) refl
