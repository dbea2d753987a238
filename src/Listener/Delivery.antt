-- ===== src/Listener/Delivery.antt =====
-- What a `poll` of swimprotocol/listener.py returns after calls of `notify`.
use swim_protocol.Prelude.{
  ℕ, Bool, true, false, List, [], ◌∷◌, ◌++◌, Option, none, some, arith, ◌≡◌, refl, if◌then◌else◌,
}
use mathlib.Core.List.{append_assoc, append-nil}
use swim_protocol.Listener.Defs.{
  Listener, Waiter, poll_start, find_event, without_event, pending, poll_end, set_events, notify,
}

module _ {A : Type 0} where
  unfoldable pub notify_all : List A → Listener A → Listener A
  notify_all [] l = l
  notify_all (item ∷ items) l = notify_all items (notify item l)

  abbrev pub is_cons : List A → Bool
  is_cons [] = false
  is_cons (x ∷ xs) = true

  pub find_event-set_events :
      (event : ℕ) (item : A) (ws : List (Waiter A)) (w : Waiter A)
      → find_event event ws ≡ some w
      → find_event event (set_events item ws)
        ≡ some (record w { args = w.args ++ item ∷ []; is_set = true })
  unfolding find_event set_events
  find_event-set_events event item [] w h = cc
  find_event-set_events event item (v ∷ ws) w h =
      ground (arith, find_event-set_events event item ws w)

  pending-notify_all :
      (event : ℕ) (items : List A) (l : Listener A) (w : Waiter A)
      → pending event l ≡ some w
      → (v : Waiter A) × (pending event (notify_all items l) ≡ some v)
        × (v.args ≡ w.args ++ items)
        × (v.is_set ≡ (if is_cons items then true else w.is_set))
  unfolding notify_all notify pending
  pending-notify_all event [] l w h = (w, h, rw append-nil, refl)
  pending-notify_all event (item ∷ items) l w h =
      let (v, found, args, flag) =
        pending-notify_all event items (notify item l) _
          (find_event-set_events event item l.waiting w h) in
      (v, found, rw args (append_assoc w.args (item ∷ []) items), ground arith)

  pub find_event-append :
      (event : ℕ) (ws : List (Waiter A)) (w : Waiter A)
      → find_event event ws ≡ none
      → w.event ≡ event
      → find_event event (ws ++ w ∷ []) ≡ some w
  unfolding find_event
  find_event-append event [] w h e = ground arith
  find_event-append event (v ∷ ws) w h e = ground (arith, find_event-append event ws w)

  find_event-without_event :
      (event : ℕ) (ws : List (Waiter A)) → find_event event (without_event event ws) ≡ none
  unfolding find_event without_event
  find_event-without_event event [] = refl
  find_event-without_event event (v ∷ ws) = ground (arith, find_event-without_event event ws)

  -- What a `poll` that meets these items gives: nothing yet, or the items, with its entry collected.
  abbrev pub Polled : ℕ → List A → Option (List A × Listener A) → Type 0
  Polled event items none = items ≡ []
  Polled event items (some (got, after)) =
      (got ≡ items) × (is_cons items ≡ true) × (pending event after ≡ none)

  -- A `poll` that begins before some calls of `notify`, under an event that no other `poll` has,
  -- returns exactly their items, in order, and leaves no entry behind. It goes on waiting exactly if
  -- there was none.
  poll_end-notify_all :
      (event : ℕ) (items : List A) (l : Listener A)
      → pending event l ≡ none
      → Polled event items (poll_end event (notify_all items (poll_start event l)))
  unfolding poll_end poll_start pending
  poll_end-notify_all event items l h =
      let first : Waiter A = record { event = event; is_set = false; args = [] } in
      let (v, found, args, flag) =
        pending-notify_all event items (poll_start event l) first
          (find_event-append event l.waiting first h refl) in
      let left = find_event-without_event event (notify_all items (poll_start event l)).waiting in
      rw (found, Polled) (by_flag items v _ args flag left)
    where
      by_flag :
          (items : List A) (v : Waiter A) (ws : List (Waiter A))
          → v.args ≡ items
          → v.is_set ≡ (if is_cons items then true else false)
          → find_event event (without_event event ws) ≡ none
          → Polled event items (
              if v.is_set
              then some (v.args, record l { waiting = without_event event ws })
              else none)
      by_flag [] v ws args flag left = rw flag refl
      by_flag (x ∷ xs) v ws args flag left = rw flag (args, refl, left)
