-- ===== src/Listener/Calls.antt =====
-- Which items the callback of a `CallbackPoll` of swimprotocol/listener.py is called with.
use swim_protocol.Prelude.{
  ℕ, ◌≡◌, ◌∙◌, refl, sym, ap, subst, Bool, true, false, List, [], ◌∷◌, ◌++◌, Option-cases, inl, inr,
}
use mathlib.Core.List.{append_assoc, append-nil}
use swim_protocol.Listener.Defs.{Listener, pending, notify}
use swim_protocol.Listener.Delivery.{is_cons, find_event-set_events}
use swim_protocol.Listener.Callback.{
  CallbackPoll, Turn, begins, notifies, goes_on, ends, on_notify, poll_again, step, run,
}
use swim_protocol.Listener.Fresh.{AllBelow, AllBelow-set_events}
use swim_protocol.Listener.Waits.{
  items_of, Waits, IsSound, runs, poll_again-IsSound, resume-IsSound,
}

module _ {A : Type 0} where
  -- The items that are notified while the task runs.
  abbrev pub heard : Bool → List (Turn A) → List A
  heard is_running [] = []
  heard is_running (begins ∷ turns) = heard true turns
  heard true (notifies item ∷ turns) = item ∷ heard true turns
  heard false (notifies item ∷ turns) = heard false turns
  heard is_running (goes_on ∷ turns) = heard is_running turns
  heard is_running (ends task ∷ turns) = heard is_running turns

  is_cons-append : (xs : List A) (x : A) → is_cons (xs ++ x ∷ []) ≡ true
  is_cons-append [] x = refl
  is_cons-append (y ∷ ys) x = refl

  step-IsSound :
      (turn : Turn A) (turns : List (Turn A)) (items : List A) (s : CallbackPoll A)
      → IsSound items s
      → (more : List A) × IsSound (items ++ more) (step turn s)
        × (heard (runs s) (turn ∷ turns) ≡ more ++ heard (runs (step turn s)) turns)
  unfolding step notify poll_again pending
  step-IsSound begins turns items s v = elim (Option-cases s.event) [
    | inl asleep ↦
        let (no_items, no_calls) = subst (Waits items s) asleep v.waits in
        (
          [],
          rw (append-nil, asleep, step)
              (poll_again-IsSound items s (no_calls ∙ sym no_items) v.below),
          rw (asleep, step) refl,
        )
    | inr (event, awake) ↦ ([], rw (append-nil, awake, step) v, rw (awake, step) (rw awake refl))
  ]
  step-IsSound (notifies item) turns items s v = elim (Option-cases s.event) [
    | inl asleep ↦ (
      [],
      rw append-nil (record {
        waits =
            subst (Waits items (record s { listener = notify item s.listener })) (sym asleep)
              (subst (Waits items s) asleep v.waits);
        below = AllBelow-set_events s.next_event item s.listener.waiting v.below;
      }),
      rw asleep refl,
    )
    | inr (event, awake) ↦
        let (w, found, e, flag) = subst (Waits items s) awake v.waits in
        (
          item ∷ [],
          record {
            waits =
                subst (Waits (items ++ item ∷ []) (record s { listener = notify item s.listener }))
                  (sym awake)
                  (
                    _,
                    find_event-set_events event item s.listener.waiting w found,
                    sym (append_assoc (items_of s.calls) w.args (item ∷ []))
                        ∙ ap (λ l. l ++ item ∷ []) e,
                    sym (is_cons-append w.args item),
                  );
            below = AllBelow-set_events s.next_event item s.listener.waiting v.below;
          },
          rw awake refl,
        )
  ]
  step-IsSound goes_on turns items s v =
      let (v', same, called) = resume-IsSound items s v in
      ([], rw append-nil v', ap (λ b. heard b turns) (sym same))
  step-IsSound (ends task) turns items s v =
      ([], rw append-nil (record { waits = v.waits; below = v.below }), refl)

  run-IsSound :
      (turns : List (Turn A)) (items : List A) (s : CallbackPoll A)
      → IsSound items s
      → IsSound (items ++ heard (runs s) turns) (run turns s)
  unfolding run
  run-IsSound [] items s v = rw append-nil v
  run-IsSound (turn ∷ turns) items s v =
      let (more, v', e) = step-IsSound turn turns items s v in
      rw e (
        subst (λ l. IsSound l (run turns (step turn s)))
          (append_assoc items more (heard (runs (step turn s)) turns))
          (run-IsSound turns (items ++ more) (step turn s) v'))

  -- A listener is listened to by `on_notify`, whose task begins to run some time, goes on and ends
  -- subtasks between calls of `notify`, in any order. When the task goes on after that, the callback
  -- has been called, since the start, with exactly the items that were notified while the task ran,
  -- each once and in order.
  pub run-goes_on :
      (next_event : ℕ) (l : Listener A) (turns : List (Turn A))
      → AllBelow next_event l.waiting
      → items_of (step goes_on (run turns (on_notify next_event l))).calls ≡ heard false turns
  unfolding step on_notify
  run-goes_on next_event l turns below =
      (resume-IsSound (heard false turns) (run turns (on_notify next_event l)) (
        run-IsSound turns [] (on_notify next_event l)
          (record { waits = (refl, refl); below = below }))).2
