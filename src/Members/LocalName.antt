-- ===== src/Members/LocalName.antt =====
-- The name of the local member in the registry of swimprotocol/members.py.
use swim_protocol.Prelude.{
  ℕ, ◌≡◌, ◌∙◌, refl, Bool, Text, Bytes, Option, none, some, arith, Option-cases, inl, inr,
}
use swim_protocol.Result.{Result, ok, raise}
use swim_protocol.Status.{Status, online}
use swim_protocol.Packet.{Metadata}
use swim_protocol.Member.{Member}
use swim_protocol.Members.Defs.{
  Members, Config, put, get, get_all, update_from, update, apply, ack_gossip, finish,
  refresh_statuses, init,
}
use swim_protocol.Members.History.{Call, gets, updates, applies, acks, step, alone, local-get_all}

-- No call changes which member is the local one.
pub local-finish :
    (name : Text) (r : Result Bool × Member) (s : Members)
    → ((finish name r s).1.local ≡ s.local) × ((finish name r s).1.members ≡ put name r.1 s.members)
unfolding refresh_statuses
local-finish name (raise e, m) s = (refl, refl)
local-finish name (ok updated, m) s = (ground arith, ground arith)

local-get :
    (name : Text) (validity : Option Bytes) (random : Bytes) (now : ℕ) (s : Members)
    → (get name validity random now s).local ≡ s.local
unfolding get
local-get name validity random now s = ground arith

local-update_from :
    (name : Text) (source : Option Text) (clock : ℕ) (status : Option Status)
    (metadata : Option Metadata) (now : ℕ) (s : Members)
    → (update_from name source clock status metadata now s).1.local ≡ s.local
unfolding update_from
local-update_from name source clock status metadata now s = elim (Option-cases (s.members name)) [
  | inl unknown ↦ rw (unknown, update_from)
  | inr (k, found) ↦ rw (found, update_from) (local-finish name _ s).0
]

local-ack_gossip :
    (member source : Text) (clock : ℕ) (s : Members)
    → (ack_gossip member source clock s).1.local ≡ s.local
unfolding ack_gossip
local-ack_gossip member source clock s = ground arith

pub local-step : (c : Call) (s : Members) → (step c s).local ≡ s.local
unfolding step update apply
local-step (gets name validity random now) s = local-get name validity random now s
local-step (updates name status metadata now) s =
    local-update_from name none s.next_clock status metadata now s
local-step (applies name source clock status metadata now) s =
    local-update_from name (some source) clock (some status) metadata now s
local-step (acks member source clock) s = local-ack_gossip member source clock s

pub local-init :
    (config : Config) (random : Text → Bytes) (now : ℕ)
    → (init config random now).1.local ≡ config.local_name
unfolding init step
local-init config random now =
    let s = get_all config.peers random now (alone config random now) in
    local-step (updates config.local_name (some online) (some config.local_metadata) now) s
    ∙ local-get_all config random now config.peers (alone config random now)
