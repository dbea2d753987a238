-- ===== src/Listener/Callback.antt =====
-- swimprotocol/listener.py: `CallbackPoll`, whose task runs side by side with calls of `notify`.
use swim_protocol.Prelude.{ℕ, suc, List, [], ◌∷◌, ◌++◌, Option, none, some}
use swim_protocol.Tasks.{TaskOwner, run_subtask, done}
use swim_protocol.Tasks
use swim_protocol.Listener.Defs.{Listener, poll_start, poll_end, notify}

-- The event of the `poll` that `run` waits for, once it runs, and the calls of the callback so far,
-- each with its task.
pub record CallbackPoll (A : Type 0) : Type 0 where
  pub listener : Listener A
  pub owner : TaskOwner
  pub event : Option ℕ
  pub calls : List (ℕ × A)
  pub next_event : ℕ

-- What happens: the task begins to run, an item is notified, the task goes on, a subtask is done.
pub data Turn (A : Type 0) : Type 0 where
  begins : Turn A
  notifies : A → Turn A
  goes_on : Turn A
  ends : ℕ → Turn A

module _ {A : Type 0} where
  -- `on_notify(callback)`, on a listener whose events have lower numbers.
  unfoldable pub on_notify : ℕ → Listener A → CallbackPoll A
  on_notify next_event l = record {
    listener = l;
    owner = Tasks.init;
    event = none;
    calls = [];
    next_event = next_event;
  }

  -- The next call of `poll`, up to its wait.
  unfoldable pub poll_again : CallbackPoll A → CallbackPoll A
  poll_again s = record s {
    listener = poll_start s.next_event s.listener;
    event = some s.next_event;
    next_event = suc s.next_event;
  }

  -- The loop over the items of one `poll`.
  unfoldable pub call_all : List A → CallbackPoll A → CallbackPoll A
  call_all [] s = s
  call_all (item ∷ items) s =
      let (task, owner) = run_subtask s.owner in
      call_all items (record s { owner = owner; calls = s.calls ++ (task, item) ∷ [] })

  -- The loop of `run`, from the end of a `poll` to the wait of the next.
  abbrev pub polled : Option (List A × Listener A) → CallbackPoll A → CallbackPoll A
  polled none s = s
  polled (some (items, l)) s = poll_again (call_all items (record s { listener = l }))

  unfoldable pub resume : CallbackPoll A → CallbackPoll A
  resume s = elim s.event [ none ↦ s | some event ↦ polled (poll_end event s.listener) s ]

  unfoldable pub step : Turn A → CallbackPoll A → CallbackPoll A
  step begins s = elim s.event [ none ↦ poll_again s | some event ↦ s ]
  step (notifies item) s = record s { listener = notify item s.listener }
  step goes_on s = resume s
  step (ends task) s = record s { owner = done task s.owner }

  unfoldable pub run : List (Turn A) → CallbackPoll A → CallbackPoll A
  run [] s = s
  run (turn ∷ turns) s = run turns (step turn s)
