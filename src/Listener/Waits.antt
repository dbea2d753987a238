-- ===== src/Listener/Waits.antt =====
-- What waits for the task of a `CallbackPoll` of swimprotocol/listener.py, and what it takes when it
-- goes on.
use swim_protocol.Prelude.{
  ℕ, ◌≡◌, ◌⊎◌, ◌∙◌, refl, sym, ap, subst, Bool, true, false, List, [], ◌∷◌, ◌++◌, Option, none,
  some, if◌then◌else◌, Option-cases, Bool-cases, inl, inr,
}
use mathlib.Core.List.{append_assoc, append-nil}
use swim_protocol.Tasks.{run_subtask}
use swim_protocol.Listener.Defs.{Listener, Waiter, poll_start, without_event, pending, poll_end}
use swim_protocol.Listener.Delivery.{is_cons, find_event-append}
use swim_protocol.Listener.Callback.{CallbackPoll, poll_again, call_all, polled, resume}
use swim_protocol.Listener.Fresh.{
  AllBelow, AllBelow-without_event, AllBelow-append, find_event-fresh,
}

-- Whether the task runs.
abbrev pub has_event : Option ℕ → Bool
has_event none = false
has_event (some event) = true

module _ {A : Type 0} where
  abbrev pub items_of : List (ℕ × A) → List A
  items_of [] = []
  items_of ((task, item) ∷ calls) = item ∷ items_of calls

  items_of-append : (xs ys : List (ℕ × A)) → items_of (xs ++ ys) ≡ items_of xs ++ items_of ys
  items_of-append [] ys = refl
  items_of-append ((task, item) ∷ xs) ys = ap (item ∷◌) (items_of-append xs ys)

  -- The calls and the items that wait are the items heard so far; and the next event is new.
  abbrev pub Waits : List A → CallbackPoll A → Option ℕ → Type 0
  Waits items s none = (items ≡ []) × (items_of s.calls ≡ [])
  Waits items s (some event) =
      (w : Waiter A) × (pending event s.listener ≡ some w)
      × (items_of s.calls ++ w.args ≡ items)
      × (w.is_set ≡ is_cons w.args)

  pub record IsSound (items : List A) (s : CallbackPoll A) : Type 0 where
    pub waits : Waits items s s.event
    pub below : AllBelow s.next_event s.listener.waiting

  abbrev pub runs : CallbackPoll A → Bool
  runs s = has_event s.event

  pub poll_again-IsSound :
      (items : List A) (s : CallbackPoll A)
      → items_of s.calls ≡ items
      → AllBelow s.next_event s.listener.waiting
      → IsSound items (poll_again s)
  unfolding poll_again poll_start pending
  poll_again-IsSound items s e below = record {
    waits = (
      _,
      find_event-append s.next_event s.listener.waiting _
          (find_event-fresh s.next_event s.listener.waiting below) refl,
      append-nil _ ∙ e,
      refl,
    );
    below = AllBelow-append s.next_event _ s.listener.waiting refl below;
  }

  calls-call_all :
      (items : List A) (s : CallbackPoll A)
      → items_of (call_all items s).calls ≡ items_of s.calls ++ items
  unfolding call_all
  calls-call_all [] s = sym (append-nil _)
  calls-call_all (item ∷ items) s =
      calls-call_all items _
      ∙ ap (λ l. l ++ items) (items_of-append s.calls (((run_subtask s.owner).0, item) ∷ []))
      ∙ append_assoc (items_of s.calls) (item ∷ []) items

  kept-call_all :
      (items : List A) (s : CallbackPoll A)
      → ((call_all items s).listener ≡ s.listener) × ((call_all items s).next_event ≡ s.next_event)
  unfolding call_all
  kept-call_all [] s = (refl, refl)
  kept-call_all (item ∷ items) s = kept-call_all items _

  polled-IsSound :
      (items : List A) (event : ℕ) (w : Waiter A) (s : CallbackPoll A)
      → items_of s.calls ++ w.args ≡ items
      → AllBelow s.next_event s.listener.waiting
      → IsSound items (
          polled
            (some (w.args, record s.listener { waiting = without_event event s.listener.waiting }))
            s)
  polled-IsSound items event w s e below =
      let l : Listener A = record s.listener { waiting = without_event event s.listener.waiting } in
      let (same, next) = kept-call_all w.args (record s { listener = l }) in
      poll_again-IsSound items (call_all w.args (record s { listener = l }))
        (calls-call_all w.args (record s { listener = l }) ∙ e)
        (rw (same, next) (AllBelow-without_event s.next_event event s.listener.waiting below))

  -- What the task meets when it goes on: no item, or those of the entry of its event.
  resume_cases :
      (items : List A) (s : CallbackPoll A)
      → IsSound items s
      → ((resume s ≡ s) × (items_of s.calls ≡ items))
        ⊎ ((event : ℕ) × (w : Waiter A) × (s.event ≡ some event)
            × (items_of s.calls ++ w.args ≡ items)
            × (resume s
                ≡ polled
                    (some (
                      w.args,
                      record s.listener { waiting = without_event event s.listener.waiting },
                    ))
                    s))
  unfolding resume poll_end
  resume_cases items s v = elim (Option-cases s.event) [
    | inl asleep ↦
        let (no_items, no_calls) = subst (Waits items s) asleep v.waits in
        inl (
          ap (λ o. elim o [ none ↦ s | some event ↦ polled (poll_end event s.listener) s ]) asleep,
          no_calls ∙ sym no_items,
        )
    | inr (event, awake) ↦
        let (w, found, e, flag) = subst (Waits items s) awake v.waits in
        by_flag event w awake e flag (
          ap (λ o. elim o [ none ↦ s | some event ↦ polled (poll_end event s.listener) s ]) awake
          ∙ ap
              (λ o.
                polled
                  (elim o [
                    | none ↦ none
                    | some w ↦
                        if w.is_set
                        then some (
                          w.args,
                          record s.listener { waiting = without_event event s.listener.waiting },
                        )
                        else none
                  ])
                  s)
              found)
  ]
    where
      taken : ℕ → Waiter A → Bool → CallbackPoll A
      taken event w due =
          polled
            (if due
              then some
                  (w.args, record s.listener { waiting = without_event event s.listener.waiting })
              else none)
            s

      none_of : (xs : List A) → is_cons xs ≡ false → xs ≡ []
      none_of [] h = refl
      none_of (x ∷ xs) h = cc

      by_flag :
          (event : ℕ) (w : Waiter A)
          → s.event ≡ some event
          → items_of s.calls ++ w.args ≡ items
          → w.is_set ≡ is_cons w.args
          → resume s ≡ taken event w w.is_set
          → ((resume s ≡ s) × (items_of s.calls ≡ items))
            ⊎ ((event : ℕ) × (w : Waiter A) × (s.event ≡ some event)
                × (items_of s.calls ++ w.args ≡ items)
                × (resume s ≡ taken event w true))
      by_flag event w awake e flag same = elim (Bool-cases w.is_set) [
        | inl due ↦ inr (event, w, awake, e, same ∙ ap (taken event w) due)
        | inr not_due ↦ inl (
          same ∙ ap (taken event w) not_due,
          sym (append-nil _)
              ∙ ap (λ l. items_of s.calls ++ l) (sym (none_of w.args (sym flag ∙ not_due)))
              ∙ e,
        )
      ]

  -- The callback has then been called with everything that was heard.
  pub resume-IsSound :
      (items : List A) (s : CallbackPoll A)
      → IsSound items s
      → IsSound items (resume s) × (runs (resume s) ≡ runs s) × (items_of (resume s).calls ≡ items)
  unfolding poll_again
  resume-IsSound items s v = elim (resume_cases items s v) [
    | inl (stays, e) ↦ (
      subst (IsSound items) (sym stays) v,
      ap runs stays,
      ap (λ (t : CallbackPoll A). items_of t.calls) stays ∙ e,
    )
    | inr (event, w, awake, e, goes) ↦ (
      subst (IsSound items) (sym goes) (polled-IsSound items event w s e v.below),
      ap runs goes ∙ sym (ap has_event awake),
      ap (λ (t : CallbackPoll A). items_of t.calls) goes ∙ calls-call_all w.args _ ∙ e,
    )
  ]
