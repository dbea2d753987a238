-- ===== src/Listener/Defs.antt =====
-- swimprotocol/listener.py: the state of a `Listener`, and its methods.
use swim_protocol.Prelude.{
  ℕ, Bool, true, false, List, [], ◌∷◌, ◌++◌, Option, none, some, ite, ℕ_discrete, if◌then◌else◌,
}

-- An entry of `_waiting`: the event, which is a new object in every `poll`, here a number; whether
-- it is set; and the items for it.
pub record Waiter (A : Type 0) : Type 0 where
  pub event : ℕ
  pub is_set : Bool
  pub args : List A

pub record Listener (A : Type 0) : Type 0 where
  pub waiting : List (Waiter A)

unfoldable pub init : {A : Type 0} → Listener A
init = record { waiting = [] }

module _ {A : Type 0} where
  -- `poll` up to its wait, with a new event.
  unfoldable pub poll_start : ℕ → Listener A → Listener A
  poll_start event l = record l {
    waiting = l.waiting ++ record { event = event; is_set = false; args = [] } ∷ [];
  }

  unfoldable pub find_event : ℕ → List (Waiter A) → Option (Waiter A)
  find_event event [] = none
  find_event event (w ∷ ws) = ite (ℕ_discrete w.event event) (some w) (find_event event ws)

  unfoldable pub without_event : ℕ → List (Waiter A) → List (Waiter A)
  without_event event [] = []
  without_event event (w ∷ ws) =
      let rest = without_event event ws in ite (ℕ_discrete w.event event) rest (w ∷ rest)

  unfoldable pub pending : ℕ → Listener A → Option (Waiter A)
  unfolding find_event
  pending event l = find_event event l.waiting

  -- The end of `poll`, which is reached when the event is set: the items. The event is collected
  -- with its entry. `none` while the call has to wait.
  unfoldable pub poll_end : ℕ → Listener A → Option (List A × Listener A)
  unfolding pending without_event ℕ_discrete
  poll_end event l = elim (pending event l) [
    | none ↦ none
    | some w ↦
        if w.is_set
        then some (w.args, record l { waiting = without_event event l.waiting })
        else none
  ]

  -- The loop of `notify`.
  unfoldable pub set_events : A → List (Waiter A) → List (Waiter A)
  set_events item [] = []
  set_events item (w ∷ ws) =
      record w { args = w.args ++ item ∷ []; is_set = true } ∷ set_events item ws

  unfoldable pub notify : A → Listener A → Listener A
  unfolding set_events
  notify item l = record l { waiting = set_events item l.waiting }
