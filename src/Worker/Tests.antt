-- ===== src/Worker/Tests.antt =====
-- Runs of a worker with two peers, and its theorems there.
use swim_protocol.Prelude.{
  ℕ, ◌≡◌, ◌≢◌, ◌<◌, ◌↔◌, ◌++◌, ◌∙◌, inl, refl, true, false, ite, if◌then◌else◌, text_discrete, Text,
  List, [], ◌∷◌, none, some, arith,
}
use swim_protocol.Result.{ok, raise, Error, assertion_error}
use swim_protocol.Status.{online, offline, suspect, transition, status_discrete}
use swim_protocol.Packet.{Packet, ping, gossip_ack, source_of}
use swim_protocol.Member.{Member, is_some, new}
use swim_protocol.Member.Gossip.{differs, known_after}
use swim_protocol.Members.{Members}
use swim_protocol.Members
use swim_protocol.Members.Samples.{
  config, start, start-IsValid, one, start_local, start_one, two, two_there,
}
use swim_protocol.Worker.Defs.{
  Worker, init, local_source, handle, arrive, apply_gossip, suspect_wait_end, disseminate,
}
use swim_protocol.Worker.Checks.{check_end, wait_start}
use swim_protocol.Worker.Schedule
use swim_protocol.Worker.Schedule.{Action, receives, handles, wakes, checks, resumes, spreads, run}
use swim_protocol.Worker.Valid.{IsValid}
use swim_protocol.Worker.Handled.{IsLate, handle-IsValid}
use swim_protocol.Worker.Reach.{IsSound, AllRealActions, start-IsSound, run-start-IsSound}
use swim_protocol.Worker.Stays.{inbox_of}
use swim_protocol.Worker.Events.{IsFresh, wait_start-arrive}
use swim_protocol.Worker.Answers.{acks, listeners, answers, sent-handle}
use swim_protocol.Worker.Detection.{
  Has, checked_status, check_end-suspect, check_end-online, apply_gossip_newer, apply_gossip_local,
}
use swim_protocol.Worker.Dissemination.{all_gossip, about, due_gossip, sent-disseminate}
use swim_protocol.Worker.Quiet.{sent, answered, disseminate-answered}

abbrev ready : Worker
ready = init start

ready-IsValid : IsValid ready
unfolding init Schedule.start
ready-IsValid = (start-IsSound start start-IsValid).valid

-- `2` pings, is checked and does not answer, and is told everything.
abbrev hello : Packet
hello = ping (record { name = 2 ∷ []; validity = 9 ∷ [] })

abbrev actions : List Action
actions =
    receives hello
    ∷ handles (λ name. name) 6
    ∷ checks (2 ∷ [])
    ∷ resumes 0 1 [] 7
    ∷ wakes 0 8
    ∷ spreads (2 ∷ [])
    ∷ []

actions_real : AllRealActions actions
actions_real = (tt, (tt, (tt, (tt, (tt, (tt, tt))))))

run-start-IsSound_example :
    IsSound (run actions (Schedule.start (init (Members.init config (λ name. name) 5).1)))
run-start-IsSound_example = run-start-IsSound config (λ name. name) 5 actions actions_real

-- An acknowledgement of a clock that is far ahead.
abbrev late : Packet
late = gossip_ack (record { name = 2 ∷ []; validity = 9 ∷ [] }) (1 ∷ []) 99

handle-IsValid_example :
    IsValid (handle late (λ name. name) 6 ready).1
    × ((e : Error)
        → ((handle late (λ name. name) 6 ready).0 ≡ raise e)
          ↔ ((e ≡ assertion_error) × IsLate start.next_clock late))
unfolding init
handle-IsValid_example = handle-IsValid late (λ name. name) 6 ready tt ready-IsValid

not_local : 2 ∷ [] ≢ ready.members.local
unfolding init
not_local e = cc (e ∙ start_local)

sent-handle_example :
    (handle hello (λ name. name) 6 ready).1.send_queue
    ≡ ready.send_queue
      ++ (acks (source_of hello) (listeners ready (source_of hello).name)
          ++ answers (local_source ready.members) hello)
unfolding source_of
sent-handle_example = sent-handle hello (λ name. name) 6 ready tt ready-IsValid not_local

ready_two : ready.members.members (2 ∷ []) ≡ some two
unfolding init
ready_two = two_there

check_end-suspect_example :
    (task : ℕ) × Has (check_end (2 ∷ []) false 7 ready).1 (2 ∷ []) (checked_status two.status)
    × ((check_end (2 ∷ []) false 7 ready).1.suspects (2 ∷ []) ≡ some task)
    × Has (suspect_wait_end task 8 (check_end (2 ∷ []) false 7 ready).1).1 (2 ∷ []) offline
    × ((suspect_wait_end task 8 (check_end (2 ∷ []) false 7 ready).1).1.suspects (2 ∷ []) ≡ none)
check_end-suspect_example = check_end-suspect (2 ∷ []) 7 8 two ready ready-IsValid ready_two

check_end-online_example :
    Has (check_end (2 ∷ []) true 7 ready).1 (2 ∷ []) online
    × ((check_end (2 ∷ []) true 7 ready).1.suspects (2 ∷ []) ≡ none)
check_end-online_example = check_end-online (2 ∷ []) 7 two ready ready-IsValid ready_two

two_old : two.clock < 4
unfolding new
two_old = omega arith

two_moves : transition two.status online ≡ ok online
unfolding new transition status_discrete
two_moves = refl

apply_gossip_newer_example :
    (m' : Member) × ((apply_gossip (3 ∷ []) (2 ∷ []) 4 online (some []) 6 ready).1.members.members
        (2 ∷ [])
      ≡ some m')
    × (m'.status ≡ online)
    × (m'.metadata_dict ≡ known_after two (some []))
    × (m'.clock ≡ (if differs two online (some []) then 4 else two.clock))
    × (is_some ((apply_gossip (3 ∷ []) (2 ∷ []) 4 online (some []) 6 ready).1.suspects (2 ∷ []))
        ≡ ite (status_discrete online suspect) true false)
apply_gossip_newer_example =
    apply_gossip_newer (3 ∷ []) (2 ∷ []) 4 online online (some []) 6 two ready ready-IsValid
      (inl refl) ready_two not_local two_old two_moves

sent-disseminate_example :
    (out : List (Text × Packet)) × ((disseminate (2 ∷ []) ready).send_queue
      ≡ ready.send_queue ++ out)
    × (all_gossip out ≡ true)
    × ((n : Text)
        → about n out
          ≡ due_gossip (local_source ready.members) (2 ∷ []) two n (ready.members.members n))
sent-disseminate_example = sent-disseminate (2 ∷ []) two ready ready-IsValid ready_two

ready-IsFresh : IsFresh (inbox_of ready)
unfolding init
ready-IsFresh name = tt

wait_start-arrive_example :
    ((wait_start (2 ∷ []) ready).1.is_set (wait_start (2 ∷ []) ready).0 ≡ false)
    × ((arrive (source_of hello) (λ name. name) 6 (wait_start (2 ∷ []) ready).1).is_set
          (wait_start (2 ∷ []) ready).0
        ≡ ite (text_discrete (2 ∷ []) (source_of hello).name) true false)
wait_start-arrive_example =
    wait_start-arrive (2 ∷ []) (source_of hello) (λ name. name) 6 ready ready-IsFresh

local_online : Has ready ready.members.local online
unfolding init
local_online = (one, start_one, refl)

apply_gossip_local_example :
    (task : ℕ) × Has
      (apply_gossip (2 ∷ []) ready.members.local 1 suspect none 6 ready).1
      ready.members.local
      online
    × ((apply_gossip (2 ∷ []) ready.members.local 1 suspect none 6 ready).1.suspects
          ready.members.local
        ≡ some task)
    × Has
        (suspect_wait_end task 8
          (apply_gossip (2 ∷ []) ready.members.local 1 suspect none 6 ready).1).1
        ready.members.local
        suspect
apply_gossip_local_example = apply_gossip_local (2 ∷ []) 1 none 6 8 ready ready-IsValid local_online

disseminate-answered_example :
    ((disseminate (2 ∷ []) ready).send_queue ≡ ready.send_queue ++ sent (2 ∷ []) two ready)
    × (disseminate (2 ∷ []) (answered (2 ∷ []) two (λ name. name) 6 ready)
        ≡ answered (2 ∷ []) two (λ name. name) 6 ready)
disseminate-answered_example =
    disseminate-answered (2 ∷ []) two (λ name. name) 6 ready ready-IsValid ready_two
