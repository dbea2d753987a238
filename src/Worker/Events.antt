-- ===== src/Worker/Events.antt =====
-- The events of swimprotocol/worker.py: `_wait` begins with a new one, and the packets of its target
-- set it.
use swim_protocol.Prelude.{
  ℕ, suc, ◌<◌, ◌≡◌, ◌∙◌, ◌||◌, refl, ap, Bool, true, false, Text, Bytes, text_discrete, ℕ_discrete,
  List, [], ◌∷◌, ◌++◌, Option, none, some, ite, arith, Option-cases, Bool-cases, inl, inr,
}
use swim_protocol.Packet.{Source, ack}
use swim_protocol.Shuffle.{mem}
use swim_protocol.Worker.Defs.{
  Worker, assign_nth, added, add_waiting, set_all, send, send_acks, notify_waiting, get_listening,
  get_member, arrive,
}
use swim_protocol.Worker.Checks.{wait_start}
use swim_protocol.Worker.Stays.{Inbox, inbox_of}

-- The events that are waited for were made before.
abbrev pub AreOld : Option (List ℕ) → ℕ → Type 0
AreOld none next = Unit {0}
AreOld (some events) next = (e : ℕ) → mem ℕ_discrete e events ≡ true → e < next

abbrev pub IsFresh : Inbox → Type 0
IsFresh (received, (waiting, next)) = (name : Text) → AreOld (waiting name) next

AreOld-later : (o : Option (List ℕ)) (n : ℕ) → AreOld o n → AreOld o (suc n)
AreOld-later none n h = tt
AreOld-later (some events) n h = λ e m. omega (arith, h e m)

mem-append :
    (e x : ℕ) (events : List ℕ)
    → mem ℕ_discrete e (events ++ x ∷ [])
      ≡ mem ℕ_discrete e events || ite (ℕ_discrete x e) true false
unfolding mem
mem-append e x [] = ground arith
mem-append e x (y ∷ events) = ground (arith, mem-append e x events)

AreOld-added :
    (o : Option (List ℕ)) (n : ℕ) → AreOld o n → AreOld (some (added ℕ_discrete n o)) (suc n)
unfolding mem
AreOld-added none n h = λ e m. ground arith
AreOld-added (some events) n h = λ e m. ground (arith, h e, mem-append e n events)

pub wait_start-IsFresh :
    (target : Text) (w : Worker) → IsFresh (inbox_of w) → IsFresh (inbox_of (wait_start target w).1)
unfolding wait_start add_waiting
wait_start-IsFresh target w fresh name =
    elim (text_discrete target name)
      as (λ d.
        AreOld (ite d (some (added ℕ_discrete w.next_event (w.waiting target))) (w.waiting name))
          (suc w.next_event)) [
            | yes e ↦ AreOld-added (w.waiting target) w.next_event (fresh target)
            | no ne ↦ AreOld-later (w.waiting name) w.next_event (fresh name)
          ]

-- Which events a call of `event.set()` for each of a list leaves set.
set_all_lem :
    (events : List ℕ) (is_set : ℕ → Bool) (e : ℕ)
    → set_all events is_set e ≡ mem ℕ_discrete e events || is_set e
unfolding set_all mem
set_all_lem [] is_set e = refl
set_all_lem (x ∷ events) is_set e = set_all_lem events (assign_nth x true is_set) e ∙ ground arith

abbrev awaits : Option (List ℕ) → ℕ → Bool
awaits none e = false
awaits (some events) e = mem ℕ_discrete e events

is_set-notify_waiting :
    (name : Text) (w : Worker) (e : ℕ)
    → (notify_waiting name w).is_set e ≡ awaits (w.waiting name) e || w.is_set e
unfolding notify_waiting
is_set-notify_waiting name w e = elim (Option-cases (w.waiting name)) [
  | inl nobody ↦ rw (nobody, notify_waiting, awaits) refl
  | inr (events, found) ↦ rw (found, notify_waiting, awaits) (set_all_lem events w.is_set e)
]

is_set-send_acks :
    (source : Source) (targets : List Text) (w : Worker)
    → (send_acks source targets w).is_set ≡ w.is_set
unfolding send_acks send
is_set-send_acks source [] w = refl
is_set-send_acks source (target ∷ targets) w =
    is_set-send_acks source targets (send target (ack source) w)

is_set-arrive :
    (source : Source) (random : Text → Bytes) (now : ℕ) (w : Worker) (e : ℕ)
    → (arrive source random now w).is_set e ≡ awaits (w.waiting source.name) e || w.is_set e
unfolding arrive get_listening
is_set-arrive source random now w e =
    ap (λ (f : ℕ → Bool). f e) (is_set-send_acks _ _ _)
    ∙ is_set-notify_waiting source.name (get_member source.name (some source.validity) random now w)
        e

not_awaited : (o : Option (List ℕ)) (n : ℕ) → AreOld o n → awaits o n ≡ false
not_awaited none n h = refl
not_awaited (some events) n h = elim (Bool-cases (mem ℕ_discrete n events)) [
  | inl there ↦ absurd (omega (arith, h n there))
  | inr missing ↦ missing
]

awaited : (o : Option (List ℕ)) (n : ℕ) → mem ℕ_discrete n (added ℕ_discrete n o) ≡ true
unfolding mem
awaited none n = ground arith
awaited (some events) n = ground (arith, mem-append n n events)

-- The event of a `_wait` is not set when the wait begins, and the next packet sets it exactly if it
-- comes from the target, whatever its class. The events waited for until then were made before.
pub wait_start-arrive :
    (target : Text) (source : Source) (random : Text → Bytes) (now : ℕ) (w : Worker)
    → IsFresh (inbox_of w)
    → ((wait_start target w).1.is_set (wait_start target w).0 ≡ false)
      × ((arrive source random now (wait_start target w).1).is_set (wait_start target w).0
          ≡ ite (text_discrete target source.name) true false)
unfolding wait_start add_waiting
wait_start-arrive target source random now w fresh = (
  ground arith,
  is_set-arrive source random now (wait_start target w).1 w.next_event
      ∙ by_source (text_discrete target source.name),
)
  where
    by_source :
        (d : Dec (target ≡ source.name))
        → awaits
              (ite d
                (some (added ℕ_discrete w.next_event (w.waiting target)))
                (w.waiting source.name))
              w.next_event
            || assign_nth w.next_event false w.is_set w.next_event
          ≡ ite d true false
    by_source (yes e) = ground (arith, awaited (w.waiting target) w.next_event)
    by_source (no ne) =
        ground (arith, not_awaited (w.waiting source.name) w.next_event (fresh source.name))
