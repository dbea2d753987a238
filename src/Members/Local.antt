-- ===== src/Members/Local.antt =====
-- The local member in the histories of the registry of swimprotocol/members.py.
use swim_protocol.Prelude.{
  ℕ, ◌≡◌, ◌≢◌, ◌∙◌, refl, sym, Bool, Text, Bytes, text_discrete, List, [], ◌∷◌, Option, none, some,
  ite, arith, Option-cases, Bool-cases, inl, inr, ap, subst, leb, ◌⊎◌,
}
use swim_protocol.Result.{Result, ok}
use swim_protocol.Status.{Status, online, transition}
use swim_protocol.Packet.{Metadata}
use swim_protocol.Member.{Member}
use swim_protocol.Member
use swim_protocol.Member.Update.{update_local, update-raise_iff}
use swim_protocol.Member.Kept.{update_statusless}
use swim_protocol.Member.Given.{update_given}
use swim_protocol.Members.Keeps.{real_accepted}
use swim_protocol.Members.Defs.{
  Members, Config, put, get, update_from, update, apply, ack_gossip, finish, check_validity, init,
  get_all,
}
use swim_protocol.Members.Valid.{IsValid}
use swim_protocol.Members.History.{
  Call, gets, updates, applies, acks, step, run, AllReal, step-IsValid, init-IsValid, alone,
  alone-IsValid, get_all-IsValid, local-get_all,
}
use swim_protocol.Members.LocalName.{local-finish, local-step}

-- The local member is there and online.
abbrev pub IsOnline : Members → Type 0
IsOnline s = (m : Member) × (s.members s.local ≡ some m) × (m.status ≡ online)

-- The call is not an `update` of the given member's status.
abbrev pub Spares : Text → Call → Type 0
Spares local (gets name validity random now) = Unit {0}
Spares local (updates name status metadata now) = (name ≡ local) → status ≡ none
Spares local (applies name source clock status metadata now) = Unit {0}
Spares local (acks member source clock) = Unit {0}

abbrev pub AllSpare : Text → List Call → Type 0
AllSpare local [] = Unit {0}
AllSpare local (c ∷ calls) = Spares local c × AllSpare local calls

-- `members` at the local name, as a function of it alone.
pub found_local :
    (f : Members) (s : Members) (name : Text) (m' : Member) (o : Option Member)
    → f.local ≡ s.local
    → f.members ≡ put name m' s.members
    → put name m' s.members s.local ≡ o
    → f.members f.local ≡ o
found_local f s name m' o l e h =
    ground (arith, ap (λ (g : Text → Option Member). g s.local) e, ap f.members l)

module _ (name : Text) (source : Option Text) (clock : ℕ) (status : Option Status)
    (metadata : Option Metadata) (now : ℕ) (s : Members) (v : IsValid s) (on : IsOnline s)
    (spared : name ≡ s.local → (source ≢ none) ⊎ (status ≡ none)) where
  outcome : Member → Result Bool × Member
  outcome k = Member.update source clock status metadata s.next_clock now k

  stays : (k : Member) → s.members name ≡ some k → name ≡ s.local → (outcome k).1.status ≡ online
  unfolding outcome
  stays k found e =
      let (m, there, is_on) = on in
      let same : k ≡ m = cc in
      let valid = v.each name k found in
      let here : k.status ≡ online = ap (λ (j : Member). j.status) same ∙ is_on in
      elim (spared e) [
        | inl told ↦
            (update_local source clock status metadata s.next_clock now k
              (ground (arith, valid.is_local)) told).0
            ∙ here
        | inr less ↦
            rw less
              (update_statusless source clock metadata s.next_clock now k valid.settled.status_none)
            ∙ here
      ]

  online_after :
      (k : Member)
      → s.members name ≡ some k
      → (d : Dec (name ≡ s.local))
      → (m : Member) × (ite d (some (outcome k).1) (s.members s.local) ≡ some m)
        × (m.status ≡ online)
  online_after k found (yes e) = ((outcome k).1, refl, stays k found e)
  online_after k found (no ne) = on

  finish-IsOnline : (k : Member) → s.members name ≡ some k → IsOnline (finish name (outcome k) s).1
  finish-IsOnline k found =
      let (l, e) = local-finish name (outcome k) s in
      let (m, h, st) = online_after k found (text_discrete name s.local) in
      (m, found_local (finish name (outcome k) s).1 s name (outcome k).1 (some m) l e h, st)

  pub update_from-IsOnline : IsOnline (update_from name source clock status metadata now s).1
  unfolding update_from outcome
  update_from-IsOnline = elim (Option-cases (s.members name)) [
    | inl unknown ↦ rw (unknown, update_from) on
    | inr (k, found) ↦ rw (found, update_from) (finish-IsOnline k found)
  ]

-- A member under a name is replaced by one of the same status, or is new.
put-IsOnline :
    (s : Members) (name : Text) (m' : Member)
    → IsOnline s
    → ((k : Member) → s.members name ≡ some k → m'.status ≡ k.status)
    → (d : Dec (name ≡ s.local))
    → (m : Member) × (ite d (some m') (s.members s.local) ≡ some m) × (m.status ≡ online)
put-IsOnline s name m' on same (no ne) = on
put-IsOnline s name m' (m, there, is_on) same (yes e) =
    (m', refl, same m (ap s.members e ∙ there) ∙ is_on)

status-check_validity : (b : Option Bytes) (m : Member) → (check_validity b m).status ≡ m.status
status-check_validity none m = refl
status-check_validity (some b) m = ground arith

get-IsOnline :
    (name : Text) (validity : Option Bytes) (random : Bytes) (now : ℕ) (s : Members)
    → IsOnline s
    → IsOnline (get name validity random now s)
unfolding get
get-IsOnline name validity random now s on = elim (Option-cases (s.members name)) [
  | inl unknown ↦
      rw (unknown, get) (put-IsOnline s name _ on (λ k e. cc) (text_discrete name s.local))
  | inr (k, found) ↦
      rw (found, get)
        (put-IsOnline s name (check_validity validity k) on
          (λ j e.
            status-check_validity validity k
            ∙ ap (λ (o : Option Member). status_or o k.status) (sym found ∙ e))
          (text_discrete name s.local))
]
  where
    status_or : Option Member → Status → Status
    status_or none st = st
    status_or (some m) st = m.status

ack_gossip-IsOnline :
    (member source : Text) (clock : ℕ) (s : Members)
    → IsOnline s
    → IsOnline (ack_gossip member source clock s).1
unfolding ack_gossip
ack_gossip-IsOnline member source clock s on = elim (Bool-cases (leb clock s.next_clock)) [
  | inr late ↦ rw late on
  | inl fits ↦ elim (Option-cases (s.members source)) [
    | inl unknown ↦ rw (fits, unknown, ack_gossip) on
    | inr (k, found) ↦
        rw (fits, found, ack_gossip)
          (put-IsOnline s source _ on (λ j e. cc (sym found ∙ e)) (text_discrete source s.local))
  ]
]

step-IsOnline :
    (c : Call) (s : Members) → IsValid s → IsOnline s → Spares s.local c → IsOnline (step c s)
unfolding step update apply
step-IsOnline (gets name validity random now) s v on spare =
    get-IsOnline name validity random now s on
step-IsOnline (updates name status metadata now) s v on spare =
    update_from-IsOnline name none s.next_clock status metadata now s v on (λ e. inr (spare e))
step-IsOnline (applies name source clock status metadata now) s v on spare =
    update_from-IsOnline name (some source) clock (some status) metadata now s v on
      (λ e. inl (λ h. cc))
step-IsOnline (acks member source clock) s v on spare = ack_gossip-IsOnline member source clock s on

pub to_online : (s : Status) → transition s online ≡ ok online
unfolding transition
to_online s = ground arith

module _ (config : Config) (random : Text → Bytes) (now : ℕ) where
  abbrev with_peers : Members
  with_peers = get_all config.peers random now (alone config random now)

  abbrev peers_valid : IsValid with_peers
  peers_valid =
      get_all-IsValid config random now config.peers (alone config random now)
        (alone-IsValid config random now)

  first_update : (k : Member) → with_peers.members config.local_name ≡ some k → Result Bool × Member
  first_update k found =
      Member.update none with_peers.next_clock (some online) (some config.local_metadata)
        with_peers.next_clock now k

  first_online :
      (k : Member) (found : with_peers.members config.local_name ≡ some k)
      → (first_update k found).1.status ≡ online
  unfolding first_update
  first_online k found =
      let old = peers_valid.each config.local_name k found in
      update_given with_peers.next_clock with_peers.next_clock now online online k old.settled
        old.behind (to_online k.status) (some config.local_metadata)
        λ e h.
          real_accepted (some online) (inl refl)
            ((update-raise_iff none with_peers.next_clock (some online) (some config.local_metadata)
                with_peers.next_clock now k e old.settled).0
              h).1

  init-IsOnline :
      IsOnline (init config random now).1 × ((init config random now).1.local ≡ config.local_name)
  unfolding init update update_from first_update
  init-IsOnline =
      let (k, there) = peers_valid.local_there in
      let l = local-get_all config random now config.peers (alone config random now) in
      let found : with_peers.members config.local_name ≡ some k =
        subst (λ n. with_peers.members n ≡ some k) l there in
      let (kept, e) = local-finish config.local_name (first_update k found) with_peers in
      rw (found, update_from)
        (
          (
            (first_update k found).1,
            found_local (finish config.local_name (first_update k found) with_peers).1 with_peers
                config.local_name (first_update k found).1 (some (first_update k found).1) kept e
                (ground (arith, l)),
            first_online k found,
          ),
          kept ∙ l,
        )

run-IsOnline :
    (calls : List Call) (s : Members)
    → AllReal calls
    → AllSpare s.local calls
    → IsValid s
    → IsOnline s
    → IsOnline (run calls s)
unfolding run
run-IsOnline [] s real spare v on = on
run-IsOnline (c ∷ calls) s real spare v on =
    run-IsOnline calls (step c s) real.1
      (subst (λ n. AllSpare n calls) (sym (local-step c s)) spare.1) (step-IsValid c s real.0 v)
      (step-IsOnline c s v on spare.0)

-- After any history of calls on a new registry in which every status is real and no `update` gives
-- the local member a status, the local member is there and online, whatever gossip about it was
-- applied.
pub run-init-IsOnline :
    (config : Config) (random : Text → Bytes) (now : ℕ) (calls : List Call)
    → AllReal calls
    → AllSpare config.local_name calls
    → IsOnline (run calls (init config random now).1)
run-init-IsOnline config random now calls real spare =
    let (_, v) = init-IsValid config random now in
    let (on, l) = init-IsOnline config random now in
    run-IsOnline calls _ real (subst (λ n. AllSpare n calls) (sym l) spare) v on
