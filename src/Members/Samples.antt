-- ===== src/Members/Samples.antt =====
-- A registry of three members for tests.
use swim_protocol.Prelude.{◌≡◌, refl, true, false, text_discrete, [], ◌∷◌, some}
use swim_protocol.Status.{online, transition, status_discrete}
use swim_protocol.Shuffle.{Shuffle, mem, len}
use swim_protocol.Shuffle
use swim_protocol.Listener
use swim_protocol.Member.{Member, needs_gossip}
use swim_protocol.Member
use swim_protocol.Members.Defs.{
  Members, Config, refresh_loop, refresh_statuses, enrol_loop, get, update_from, update, apply,
  get_all, init, count_in, find_loop, find, gossip_among, get_gossip, ack_gossip,
}
use swim_protocol.Members.Valid.{IsValid}
use swim_protocol.Members.History.{step, run, init-IsValid}

program : Unit {0}
unfolding text_discrete Shuffle.add Shuffle.discard Shuffle.contains Shuffle.len mem Listener.init
    Listener.notify Member.new Member.update Member.set_clock Member.set_status Member.set_metadata
    Member.save Member.snapshot Member.same_items Member.needs_gossip transition status_discrete
    refresh_loop refresh_statuses enrol_loop get update_from update apply get_all init count_in
    find_loop find gossip_among get_gossip ack_gossip step run
program = tt

-- The member `1` with the peers `2` and `3`.
abbrev pub config : Config
config = record { local_name = 1 ∷ []; peers = (2 ∷ []) ∷ (3 ∷ []) ∷ []; local_metadata = [] }

abbrev pub start : Members
start = (init config (λ name. name) 5).1

pub start-IsValid : IsValid start
start-IsValid = (init-IsValid config (λ name. name) 5).1

abbrev pub two : Member
two = Member.new (2 ∷ []) false (2 ∷ []) 5

pub two_there : start.members (2 ∷ []) ≡ some two
unfolding program
two_there = refl

abbrev pub one : Member
one = record (Member.new (1 ∷ []) true (1 ∷ []) 5) {
  clock = 1;
  status = online;
  status_time = 5;
  metadata_dict = some [];
}

pub one_there : start.members (1 ∷ []) ≡ some one
unfolding program
one_there = refl

pub start_local : start.local ≡ 1 ∷ []
unfolding program
start_local = refl

pub start_one : start.members start.local ≡ some one
unfolding program
start_one = refl
