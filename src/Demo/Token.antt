-- ===== src/Demo/Token.antt =====
-- The random token that swimprotocol/demo/changes.py gives to the local member.
use swim_protocol.Prelude.{
  ℕ, ◌≡◌, ◌∙◌, refl, sym, ap, subst, Text, Bytes, text_discrete, List, [], ◌∷◌, Option, some, ite,
}
use swim_protocol.Result.{Result, ok, raise, assertion_error, and_then}
use swim_protocol.Packet.{Metadata}
use swim_protocol.Member.Items.{IsKeyed, metadata_of_told}
use swim_protocol.Address.{Integer}
use swim_protocol.Config.Defs.{Environment, for_members}
use swim_protocol.Config.Sources.{nothing}
use swim_protocol.Udp.Config.Defs.{Network, UdpConfig, UdpNamespace, udp_from_args}
use swim_protocol.Members.{Members, Config}
use swim_protocol.Members
use swim_protocol.Demo.Defs.{token_key, asserted, randomize, randomize_local, update_item}
use swim_protocol.Demo.Items.{IsShown, entry, IsEntered, update_item-IsEntered}
use swim_protocol.Demo.Fresh.{init-IsShown}
use swim_protocol.Demo.Configured.{udp_from_args_empty}

-- The entry "token" after some rounds.
abbrev pub entry_token : Text → List (Bytes × ℕ) → Option Bytes → Option Bytes
entry_token k [] before = before
entry_token k ((token, now) ∷ rounds) before =
    entry_token k rounds (ite (text_discrete token_key k) (some token) before)

abbrev pub IsRandomized : List (Bytes × ℕ) → Members → Result (Unit {0}) × Members → Type 0
IsRandomized rounds s r =
    (r.0 ≡ ok tt) × IsShown r.1 × ((k : Text) → entry k r.1 ≡ entry_token k rounds (entry k s))

then-IsRandomized :
    (token : Bytes) (now : ℕ) (rounds : List (Bytes × ℕ)) (s : Members)
    (q : Result (Unit {0}) × Members)
    → IsEntered token_key token s q
    → ((s1 : Members) → IsShown s1 → IsRandomized rounds s1 (randomize rounds s1))
    → IsRandomized ((token, now) ∷ rounds) s (and_then q λ _ s1. randomize rounds s1)
then-IsRandomized token now rounds s (raise e, s1) (fine, shown, same) rest = cc fine
then-IsRandomized token now rounds s (ok u, s1) (fine, shown, same) rest =
    let (fine2, shown2, same2) = rest s1 shown in
    (fine2, shown2, λ k. same2 k ∙ ap (entry_token k rounds) (same k))

randomize-IsRandomized :
    (rounds : List (Bytes × ℕ)) (s : Members)
    → IsShown s
    → IsRandomized rounds s (randomize rounds s)
unfolding randomize
randomize-IsRandomized [] s v = (refl, v, λ k. refl)
randomize-IsRandomized ((token, now) ∷ rounds) s v =
    then-IsRandomized token now rounds s (update_item token_key token now s)
      (update_item-IsEntered token_key token now s v) (randomize-IsRandomized rounds)

at_local :
    (rounds : List (Bytes × ℕ)) (s : Members) (v : IsShown s)
    → randomize_local rounds s
      ≡ and_then (asserted v.local.metadata, s) (λ _ s1. randomize rounds s1)
unfolding randomize_local
at_local rounds s v =
    rw (v.there, randomize_local)
      (ap (λ d. and_then (asserted d, s) (λ _ s1. randomize rounds s1))
        (metadata_of_told v.local v.told))

-- On a registry whose local member has told metadata that are not empty, every round sets the entry
-- "token" to its random bytes and keeps the others, and none raises.
pub randomize_local-IsRandomized :
    (rounds : List (Bytes × ℕ)) (s : Members) (v : IsShown s) (e : Text × Bytes) (d : Metadata)
    → v.local.metadata ≡ e ∷ d
    → IsRandomized rounds s (randomize_local rounds s)
randomize_local-IsRandomized rounds s v e d some_there =
    subst (IsRandomized rounds s)
      (sym (
        at_local rounds s v
        ∙ ap (λ d. and_then (asserted d, s) (λ _ s1. randomize rounds s1)) some_there))
      (randomize-IsRandomized rounds s v)

randomize_local_empty :
    (rounds : List (Bytes × ℕ)) (s : Members) (v : IsShown s)
    → v.local.metadata ≡ []
    → randomize_local rounds s ≡ (raise assertion_error, s)
randomize_local_empty rounds s v empty =
    at_local rounds s v ∙ ap (λ d. and_then (asserted d, s) (λ _ s1. randomize rounds s1)) empty

-- A configuration from the arguments of the demo has no metadata; on a new registry with it
-- `_randomize_local` raises AssertionError at once and changes nothing.
pub udp_from_args-randomize_local :
    (z : Integer) (net : Network z) (os : Environment) (args : UdpNamespace z) (c : UdpConfig z)
    (random : Text → Bytes) (now : ℕ) (rounds : List (Bytes × ℕ))
    → udp_from_args z net os args nothing ≡ ok c
    → randomize_local rounds (Members.init (for_members c.base) random now).1
      ≡ (raise assertion_error, (Members.init (for_members c.base) random now).1)
udp_from_args-randomize_local z net os args c random now rounds made =
    let config = for_members c.base in
    let empty : config.local_metadata ≡ [] = udp_from_args_empty z net os args c made in
    let (v, same) = init-IsShown config random now (subst IsKeyed (sym empty) tt) in
    randomize_local_empty rounds (Members.init config random now).1 v (same ∙ empty)
