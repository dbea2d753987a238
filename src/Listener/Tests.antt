-- ===== src/Listener/Tests.antt =====
-- A `poll` that meets two calls of `notify`, and its theorem there.
use swim_protocol.Prelude.{ℕ, ◌≡◌, refl, true, false, List, [], ◌∷◌, arith, none, some, ℕ_discrete}
use swim_protocol.Listener.Defs.{
  Listener, poll_start, find_event, without_event, pending, poll_end, set_events, notify,
}
use swim_protocol.Listener.Delivery.{notify_all}
use swim_protocol.Listener.Callback.{Turn, begins, notifies, goes_on, ends, on_notify, step, run}
use swim_protocol.Listener.Waits.{items_of}
use swim_protocol.Listener.Calls.{run-goes_on}

-- Another `poll` waits under the event 1.
abbrev one_waits : Listener ℕ
one_waits = record { waiting = record { event = 1; is_set = false; args = [] } ∷ [] }

polled :
    poll_end 2 (notify_all (7 ∷ 8 ∷ []) (poll_start 2 one_waits))
    ≡ some (
      7 ∷ 8 ∷ [],
      record { waiting = record { event = 1; is_set = true; args = 7 ∷ 8 ∷ [] } ∷ [] },
    )
unfolding poll_end poll_start notify_all notify find_event without_event pending set_events
    ℕ_discrete
polled = refl

no_entry : pending 2 one_waits ≡ none
unfolding pending find_event ℕ_discrete
no_entry = refl

-- The first item comes before the task runs.
abbrev turns : List (Turn ℕ)
turns = notifies 5 ∷ begins ∷ notifies 6 ∷ notifies 7 ∷ goes_on ∷ ends 0 ∷ notifies 8 ∷ []

run-goes_on_example :
    items_of (step goes_on (run turns (on_notify 2 one_waits))).calls ≡ 6 ∷ 7 ∷ 8 ∷ []
run-goes_on_example = run-goes_on 2 one_waits turns (omega arith, tt)
