-- ===== src/Status/Transition.antt =====
-- The state machine that `transition` of swimprotocol/status.py makes of the statuses.
use swim_protocol.Prelude.{true, false, ◌≡◌, ◌↔◌, ◌⊎◌, arith}
use swim_protocol.Result.{ok, raise, value_error}
use swim_protocol.Status.Defs.{
  Status, flags, online, offline, suspect, available, unavailable, transition,
}

-- A status that a member may have.
abbrev pub IsReal : Status → Type 0
IsReal s = (s ≡ online) ⊎ (s ≡ offline) ⊎ (s ≡ suspect)

-- The two moves that `transition` replaces.
abbrev pub IsBarred : Status → Status → Type 0
IsBarred self to = ((self ≡ offline) × (to ≡ suspect)) ⊎ ((self ≡ online) × (to ≡ offline))

-- `transition` raises ValueError exactly for AVAILABLE and UNAVAILABLE.
transition-raise_iff :
    (self to : Status)
    → (transition self to ≡ raise value_error) ↔ ((to ≡ available) ⊎ (to ≡ unavailable))
unfolding transition
transition-raise_iff self to = (λ h. ground arith, λ h. ground arith)

-- What a transition between real statuses ends in.
abbrev settled : Status → Status → Status
settled (flags true false false) (flags false true false) = suspect
settled (flags false true false) (flags false false true) = offline
settled self to = to

settled_lem :
    (self to : Status) → IsReal self → IsReal to → transition self to ≡ ok (settled self to)
unfolding transition
settled_lem (flags a b c) (flags x y z) hs ht = ground arith

settled-IsReal : (self to : Status) → IsReal self → IsReal to → IsReal (settled self to)
settled-IsReal (flags a b c) (flags x y z) hs ht = ground arith

settled_moves :
    (self to : Status)
    → IsReal self
    → IsReal to
    → (¬ IsBarred self (settled self to)) × ((settled self to ≡ to) ⊎ IsBarred self to)
settled_moves (flags a b c) (flags x y z) hs ht = (λ h. ground arith, ground arith)

-- Between real statuses `transition` returns a real status. It never goes from ONLINE to OFFLINE
-- nor from OFFLINE to SUSPECT, and at every other move it returns the wanted status.
pub transition-IsReal :
    (self to : Status)
    → IsReal self
    → IsReal to
    → (s : Status) × (transition self to ≡ ok s)
      × IsReal s
      × (¬ IsBarred self s)
      × ((s ≡ to) ⊎ IsBarred self to)
transition-IsReal self to hs ht =
    let (kept, moved) = settled_moves self to hs ht in
    (settled self to, settled_lem self to hs ht, settled-IsReal self to hs ht, kept, moved)
