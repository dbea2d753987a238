-- ===== src/Sync/Contents.antt =====
-- What `_write_member` of swimprotocol/sync.py leaves in the directory of a member.
use swim_protocol.Prelude.{
  ◌≡◌, refl, true, Text, Bytes, text_discrete, List, [], ◌∷◌, Option, none, some, ite, arith,
}
use swim_protocol.Result.{Result, ok}
use swim_protocol.Packet.{Metadata}
use swim_protocol.Shuffle.{mem}
use swim_protocol.Member.{Member, is_some}
use swim_protocol.Sync.Files.{Directory, keys}

-- `metadata.get(name)`: a dictionary has the value that was assigned last.
abbrev pub value_of : Text → Metadata → Option Bytes
value_of n [] = none
value_of n ((name, val) ∷ rest) = elim (value_of n rest) [
  | some later ↦ some later
  | none ↦ ite (text_discrete name n) (some val) none
]

pub has_value :
    (n : Text) (metadata : Metadata)
    → is_some (value_of n metadata) ≡ mem text_discrete n (keys metadata)
unfolding mem
has_value n [] = refl
has_value n ((name, val) ∷ rest) = ground (arith, has_value n rest)

-- Every name of the list can be that of a file.
abbrev pub AllFileNames : Directory → List Text → Type 0
AllFileNames os names = (x : Text) → mem text_discrete x names ≡ true → os.is_file_name x ≡ true

pub mem_first : (x : Text) (xs : List Text) → mem text_discrete x (x ∷ xs) ≡ true
unfolding mem
mem_first x xs = ground arith

pub mem_later :
    (x y : Text) (xs : List Text)
    → mem text_discrete x xs ≡ true
    → mem text_discrete x (y ∷ xs) ≡ true
unfolding mem
mem_later x y xs h = ground arith

module _ (os : Directory) where
  -- A sequence of calls that raises nothing, and what it leaves.
  abbrev Leaves : Result (Unit {0}) × os.Fs → (Text → Option Bytes) → Type 0
  Leaves r contents = (r.0 ≡ ok tt) × ((n : Text) → os.content n r.1 ≡ contents n)
