-- ===== src/Members/History.antt =====
-- Histories of calls on the registry of swimprotocol/members.py, from its constructor on.
use swim_protocol.Prelude.{
  ℕ, ◌≡◌, ◌∙◌, refl, true, false, Text, Bytes, text_discrete, List, [], ◌∷◌, Option, none, some,
  ite, arith, Option-cases, inl, inr, subst,
}
use swim_protocol.Result.{ok}
use swim_protocol.Status.{Status, online}
use swim_protocol.Status.Transition.{IsReal}
use swim_protocol.Shuffle.{Shuffle, mem, contains}
use swim_protocol.Shuffle
use swim_protocol.Packet.{Metadata}
use swim_protocol.Listener
use swim_protocol.Member.{Member, new}
use swim_protocol.Member.Kept.{IsRealIfGiven}
use swim_protocol.Members.Defs.{
  Members, Config, put, get, get_all, update_from, update, apply, ack_gossip, init,
}
use swim_protocol.Members.Valid.{IsValid, IsValidMember}
use swim_protocol.Members.Keeps.{update_from-IsValid}
use swim_protocol.Members.Grows.{get-IsValid, ack_gossip-IsValid}

-- The calls that change the registry, each with the random bytes and the time that it meets.
pub data Call : Type 0 where
  gets : Text → Option Bytes → Bytes → ℕ → Call
  updates : Text → Option Status → Option Metadata → ℕ → Call
  applies : Text → Text → ℕ → Status → Option Metadata → ℕ → Call
  acks : Text → Text → ℕ → Call

-- A call that raises leaves what it had assigned until then.
unfoldable pub step : Call → Members → Members
step (gets name validity random now) s = get name validity random now s
step (updates name status metadata now) s = (update name status metadata now s).1
step (applies name source clock status metadata now) s =
    (apply name source clock status metadata now s).1
step (acks member source clock) s = (ack_gossip member source clock s).1

unfoldable pub run : List Call → Members → Members
run [] s = s
run (c ∷ calls) s = run calls (step c s)

-- The statuses that a call carries are real.
abbrev pub IsRealCall : Call → Type 0
IsRealCall (gets name validity random now) = Unit {0}
IsRealCall (updates name status metadata now) = IsRealIfGiven status
IsRealCall (applies name source clock status metadata now) = IsReal status
IsRealCall (acks member source clock) = Unit {0}

abbrev pub AllReal : List Call → Type 0
AllReal [] = Unit {0}
AllReal (c ∷ calls) = IsRealCall c × AllReal calls

update_from_any-IsValid :
    (name : Text) (source : Option Text) (clock : ℕ) (status : Option Status)
    (metadata : Option Metadata) (now : ℕ) (s : Members)
    → IsValid s
    → IsRealIfGiven status
    → IsValid (update_from name source clock status metadata now s).1
unfolding update_from
update_from_any-IsValid name source clock status metadata now s v real =
    elim (Option-cases (s.members name)) [
      | inl unknown ↦ rw (unknown, update_from) v
      | inr (m, found) ↦
          (update_from-IsValid name source clock status metadata now s v real m found).1
    ]

pub step-IsValid : (c : Call) (s : Members) → IsRealCall c → IsValid s → IsValid (step c s)
unfolding step update apply
step-IsValid (gets name validity random now) s real v = get-IsValid s name validity random now v
step-IsValid (updates name status metadata now) s real v =
    update_from_any-IsValid name none s.next_clock status metadata now s v real
step-IsValid (applies name source clock status metadata now) s real v =
    update_from_any-IsValid name (some source) clock (some status) metadata now s v real
step-IsValid (acks member source clock) s real v = ack_gossip-IsValid member source clock s v

-- Any history of calls with real statuses keeps a valid registry valid.
pub run-IsValid :
    (calls : List Call) (s : Members) → AllReal calls → IsValid s → IsValid (run calls s)
unfolding run
run-IsValid [] s real v = v
run-IsValid (c ∷ calls) s real v = run-IsValid calls (step c s) real.1 (step-IsValid c s real.0 v)

module _ (config : Config) (random : Text → Bytes) (now : ℕ) where
  -- The registry as the constructor has it before the peers.
  abbrev pub alone : Members
  alone = record {
    listener = Listener.init;
    next_clock = 1;
    local = config.local_name;
    non_local = [];
    members =
        put config.local_name (new config.local_name true (random config.local_name) now)
          (λ _. none);
    statuses = λ _. Shuffle.empty;
  }

  abbrev first : Member
  first = new config.local_name true (random config.local_name) now

  first_fits :
      (n : Text) (m : Member) (d : Dec (config.local_name ≡ n))
      → ite d (some first) none ≡ some m
      → ite d true false ≡ true
      → IsValidMember config.local_name 1 n m
  unfolding new
  first_fits n m (no ne) h e = cc
  first_fits n m (yes p) h e =
      let same : first ≡ m = cc in
      subst (IsValidMember config.local_name 1 n) same (record {
        named = p;
        is_local = ground arith;
        settled = record { clock_none = refl; status_none = refl; metadata_none = refl };
        behind = omega arith;
        real = inr (inl refl);
      })

  pub alone-IsValid : IsValid alone
  unfolding new mem contains
  alone-IsValid = record {
    local_there = (first, ground arith);
    distinct = tt;
    each = λ n m h. first_fits n m (text_discrete config.local_name n) h (ground arith);
    others = λ n. ground arith;
    shuffled = λ st n h. ground arith;
  }

  pub get_all-IsValid :
      (peers : List Text) (s : Members) → IsValid s → IsValid (get_all peers random now s)
  unfolding get_all
  get_all-IsValid [] s v = v
  get_all-IsValid (peer ∷ peers) s v =
      get_all-IsValid peers _ (get-IsValid s peer none (random peer) now v)

  pub local-get_all :
      (peers : List Text) (s : Members) → (get_all peers random now s).local ≡ s.local
  unfolding get_all get
  local-get_all [] s = refl
  local-get_all (peer ∷ peers) s = local-get_all peers _ ∙ ground arith

  -- The constructor does not raise, and makes a valid registry.
  pub init-IsValid : ((init config random now).0 ≡ ok tt) × IsValid (init config random now).1
  unfolding init update
  init-IsValid =
      let s = get_all config.peers random now alone in
      let v = get_all-IsValid config.peers alone alone-IsValid in
      let (m, found) = v.local_there in
      update_from-IsValid config.local_name none s.next_clock (some online)
        (some config.local_metadata) now s v (inl refl) m
        (subst (λ n. s.members n ≡ some m) (local-get_all config.peers alone) found)

-- The constructor does not raise, and the registry is valid after any history of calls on it in which
-- every status is real, also if some of the calls raise: the members, the list of the others, the
-- shuffle of each status and the clocks agree.
pub run-init-IsValid :
    (config : Config) (random : Text → Bytes) (now : ℕ) (calls : List Call)
    → AllReal calls
    → ((init config random now).0 ≡ ok tt) × IsValid (run calls (init config random now).1)
run-init-IsValid config random now calls real =
    let (made, v) = init-IsValid config random now in (made, run-IsValid calls _ real v)
