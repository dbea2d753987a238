-- ===== src/Demo/Defs.antt =====
-- swimprotocol/demo/screen.py: the keys that are typed into the metadata of the local member.
-- swimprotocol/demo/changes.py: the random token there.
use swim_protocol.Prelude.{
  ℕ, zero, suc, ◌-◌, Bool, false, not, ◌&&◌, Text, Bytes, ℕ_discrete, List, [], ◌∷◌, ◌++◌, none,
  some, ltb, length, drop, if◌then◌else◌,
}
use swim_protocol.Result.{Result, ok, raise, value_error, key_error, assertion_error, and_then}
use swim_protocol.Shuffle.{mem}
use swim_protocol.Packet.{Metadata}
use swim_protocol.Member.{metadata_of}
use swim_protocol.Member.Items.{set_item}
use swim_protocol.Members.{Members}
use swim_protocol.Members

-- What `getch` returns: a key, or -1.
pub data ℤ : Type 0 where
  pos : ℕ → ℤ
  negsuc : ℕ → ℤ

-- The characters from the first on.
unfoldable pub range : ℕ → ℕ → Bytes
range first zero = []
range first (suc count) = first ∷ range (suc first) count

-- The constants of Python's module `string`.
abbrev pub digits : Bytes
digits = range 48 10

abbrev pub ascii_letters : Bytes
ascii_letters = range 97 26 ++ range 65 26

abbrev pub punctuation : Bytes
punctuation = range 33 15 ++ (range 58 7 ++ (range 91 6 ++ range 123 4))

abbrev pub whitespace : Bytes
whitespace = 32 ∷ 9 ∷ 10 ∷ 13 ∷ 11 ∷ 12 ∷ []

abbrev pub printable : Bytes
printable = digits ++ (ascii_letters ++ (punctuation ++ whitespace))

abbrev pub controls : Bytes
controls = 9 ∷ 13 ∷ 10 ∷ 11 ∷ 12 ∷ []

unfoldable pub is_printable : ℤ → Bool
is_printable (negsuc n) = false
is_printable (pos n) = ltb n 256 && (mem ℕ_discrete n printable && not (mem ℕ_discrete n controls))

-- `bytes([ch])`
abbrev pub bytes_of : ℤ → Result Bytes
bytes_of (negsuc n) = raise value_error
bytes_of (pos n) = if ltb n 256 then ok (n ∷ []) else raise value_error

-- `typed[-n:]`
abbrev pub last : ℕ → Bytes → Bytes
last n typed = drop (length typed - n) typed

-- `members.update(local, new_metadata=dict(local.metadata) | {key: value})`, at a time.
unfoldable pub update_item : Text → Bytes → ℕ → Members → Result (Unit {0}) × Members
update_item key value now s = elim (s.members s.local) [
  | none ↦ (raise key_error, s)
  | some local ↦ Members.update s.local none (some (set_item key value (metadata_of local))) now s
]

-- "typed"
abbrev pub typed_key : Text
typed_key = 116 ∷ 121 ∷ 112 ∷ 101 ∷ 100 ∷ []

unfoldable pub set_typed : Bytes → ℕ → Members → Result (Unit {0}) × Members
unfolding update_item
set_typed typed now s = update_item typed_key typed now s

-- What the loop of `main` keeps.
pub record Screen : Type 0 where
  pub members : Members
  pub typed : Bytes

abbrev pub shown : Bytes → Result (Unit {0}) × Members → Result (Unit {0}) × Screen
shown typed (r, members) = (r, record { members = members; typed = typed })

-- `typed += bytes([ch])` and what follows it.
abbrev pub pressed : Result Bytes → ℕ → Screen → Result (Unit {0}) × Screen
pressed (raise e) now s = (raise e, s)
pressed (ok ch) now s =
    let typed = last 30 (s.typed ++ ch) in shown typed (set_typed typed now s.members)

-- A round of the inner loop of `main` in which no change interrupts the wait.
unfoldable pub press : ℤ → ℕ → Screen → Result (Unit {0}) × Screen
press ch now s = if is_printable ch then pressed (bytes_of ch) now s else (ok tt, s)

-- Rounds one after the other, each with its key and its time.
unfoldable pub presses : List (ℤ × ℕ) → Screen → Result (Unit {0}) × Screen
presses [] s = (ok tt, s)
presses ((ch, now) ∷ keys) s = and_then (press ch now s) λ _ s1. presses keys s1

-- "token"
abbrev pub token_key : Text
token_key = 116 ∷ 111 ∷ 107 ∷ 101 ∷ 110 ∷ []

-- The loop of `_randomize_local`, with the random bytes and the time of each round.
unfoldable pub randomize : List (Bytes × ℕ) → Members → Result (Unit {0}) × Members
randomize [] s = (ok tt, s)
randomize ((token, now) ∷ rounds) s =
    and_then (update_item token_key token now s) λ _ s1. randomize rounds s1

-- `assert local.metadata`, where empty metadata are false.
abbrev pub asserted : Metadata → Result (Unit {0})
asserted [] = raise assertion_error
asserted (e ∷ d) = ok tt

unfoldable pub randomize_local : List (Bytes × ℕ) → Members → Result (Unit {0}) × Members
randomize_local rounds s = elim (s.members s.local) [
  | none ↦ (raise key_error, s)
  | some local ↦ and_then (asserted (metadata_of local), s) λ _ s1. randomize rounds s1
]
