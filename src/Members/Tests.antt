-- ===== src/Members/Tests.antt =====
-- Runs of the registry, and its theorems at a registry of three members.
use swim_protocol.Prelude.{
  ℕ, zero, suc, ◌≤◌, ◌<◌, ◌%◌, ◌≡◌, inl, inr, refl, true, false, min, map, ℕ_discrete, ◌&&◌, ite,
  ltb, Text, text_discrete, List, [], ◌∷◌, none, some, arith, length,
}
use swim_protocol.Result.{ok}
use swim_protocol.Status.{online, suspect, transition, status_discrete}
use swim_protocol.Shuffle.{Shuffle, mem, len}
use swim_protocol.Shuffle
use swim_protocol.Shuffle.Content.{IsDistinct}
use swim_protocol.Listener
use swim_protocol.Member.{Member, needs_gossip}
use swim_protocol.Member
use swim_protocol.Members.Defs.{
  Members, refresh_loop, refresh_statuses, enrol_loop, get, update_from, update, apply, get_all,
  init, count_in, find_loop, find, gossip_among, get_gossip, ack_gossip,
}
use swim_protocol.Members.Valid.{IsValid}
use swim_protocol.Members.History.{Call, applies, acks, step, run, AllReal, run-init-IsValid}
use swim_protocol.Members.Local.{IsOnline, AllSpare, run-init-IsOnline}
use swim_protocol.Members.Dissemination.{
  is_due, is_known, mem-get_gossip, get_gossip-ack_gossip, told, after,
}
use swim_protocol.Members.Find.{Drawn, candidates, find-Drawn, find_returns}
use swim_protocol.Members.Samples.{config, start, start-IsValid, two, two_there}

program : Unit {0}
unfolding text_discrete Shuffle.add Shuffle.discard Shuffle.contains Shuffle.len mem Listener.init
    Listener.notify Member.new Member.update Member.set_clock Member.set_status Member.set_metadata
    Member.save Member.snapshot Member.same_items Member.needs_gossip transition status_discrete
    refresh_loop refresh_statuses enrol_loop get update_from update apply get_all init count_in
    find_loop find gossip_among get_gossip ack_gossip step run
program = tt

-- `2` is said to be online; `1` is said, by `3`, to be a suspect; and `2` acknowledges `1`.
abbrev calls : List Call
calls =
    applies (2 ∷ []) (2 ∷ []) 1 online (some []) 6
    ∷ applies (1 ∷ []) (3 ∷ []) 7 suspect none 7
    ∷ acks (1 ∷ []) (2 ∷ []) 1
    ∷ []

calls_real : AllReal calls
calls_real = (inl refl, (inr (inr refl), (tt, tt)))

calls_spare : AllSpare (1 ∷ []) calls
calls_spare = (tt, (tt, (tt, tt)))

run-init-IsValid_example :
    ((init config (λ name. name) 5).0 ≡ ok tt)
    × IsValid (run calls (init config (λ name. name) 5).1)
run-init-IsValid_example = run-init-IsValid config (λ name. name) 5 calls calls_real

run-init-IsOnline_example : IsOnline (run calls (init config (λ name. name) 5).1)
run-init-IsOnline_example = run-init-IsOnline config (λ name. name) 5 calls calls_real calls_spare

mem-get_gossip_example :
    IsDistinct text_discrete (get_gossip two start)
    × (mem text_discrete (2 ∷ []) (get_gossip two start) ≡ is_due two (2 ∷ []) two)
mem-get_gossip_example = mem-get_gossip two start (2 ∷ []) two start-IsValid two_there

abbrev three : Member
three = Member.new (3 ∷ []) false (3 ∷ []) 5

three_left :
    (after start (1 ∷ []) (2 ∷ []) 1 two start-IsValid two_there).members (3 ∷ []) ≡ some three
unfolding program
three_left = refl

soon : 1 ≤ start.next_clock
unfolding program
soon = omega arith

get_gossip-ack_gossip_example :
    ((ack_gossip (1 ∷ []) (2 ∷ []) 1 start).0 ≡ ok tt)
    × (mem text_discrete (3 ∷ []) (
          get_gossip
            (told start (1 ∷ []) (2 ∷ []) 1 two start-IsValid two_there)
            (after start (1 ∷ []) (2 ∷ []) 1 two start-IsValid two_there))
        ≡ is_known three
          && ite (text_discrete (1 ∷ []) (3 ∷ [])) (ltb 1 three.clock) (needs_gossip two three))
get_gossip-ack_gossip_example =
    get_gossip-ack_gossip start (1 ∷ []) (2 ∷ []) 1 two start-IsValid two_there (3 ∷ []) three soon
      three_left

-- A registry in which `2` and `3` stand in every shuffle.
abbrev both : Shuffle Text
both = Shuffle.init text_discrete ((2 ∷ []) ∷ (3 ∷ []) ∷ []) Shuffle.empty

abbrev crowd : Members
crowd = record start { statuses = λ _. both }

abbrev only_two : List Text
only_two = (2 ∷ []) ∷ []

both-IsDistinct : IsDistinct text_discrete both.values
unfolding program Shuffle.init
both-IsDistinct = (refl, (refl, tt))

both_vals-IsDistinct : IsDistinct text_discrete both.weak_vals
unfolding program Shuffle.init
both_vals-IsDistinct = (refl, (refl, tt))

both_sized : length both.values ≡ len text_discrete both
unfolding program Shuffle.init
both_sized = refl

found_other : find 5 online ((3 ∷ []) ∷ []) (0 ∷ []) crowd ≡ some (ok ((2 ∷ []) ∷ []))
unfolding program Shuffle.init Shuffle.choice
found_other = refl

-- Five members are wanted, and one is not excluded.
find-Drawn_example :
    (length only_two ≡ min (length (candidates online ((3 ∷ []) ∷ []) crowd)) 5)
    × Drawn (crowd.statuses online).values only_two
unfolding mem
find-Drawn_example =
    find-Drawn 5 online ((3 ∷ []) ∷ []) crowd (0 ∷ []) only_two (refl, tt) both_vals-IsDistinct
      found_other

-- The second index twice, then the first.
abbrev draws : List ℕ
draws = 1 ∷ 3 ∷ 0 ∷ []

both_drawn :
    (i : ℕ)
    → i < length both.values
    → mem ℕ_discrete i (map (λ r. r % length both.values) draws) ≡ true
unfolding program Shuffle.init
both_drawn zero h = refl
both_drawn (suc zero) h = refl
both_drawn (suc (suc i)) h = absurd (omega arith)

find_returns_example : (found : List Text) × (find 2 online [] draws crowd ≡ some (ok found))
find_returns_example = find_returns 2 online [] crowd draws both-IsDistinct both_sized both_drawn

both_begin : both.values ≡ (2 ∷ []) ∷ (3 ∷ []) ∷ []
unfolding program Shuffle.init
both_begin = refl

both_two : 2 ≤ len text_discrete both
unfolding program Shuffle.init
both_two = omega arith
