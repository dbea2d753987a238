-- ===== src/Worker/Timers.antt =====
-- The tasks of swimprotocol/worker.py that wait before a suspect is taken for offline.
use swim_protocol.Prelude.{ℕ, ◌<◌, ◌≡◌, Text, none, some, ite, arith, Option-cases, inl, inr}
use swim_protocol.Status.{Status, suspect, status_discrete}
use swim_protocol.Worker.Defs.{Worker, start_suspect, cancel, handle_status}

-- Every member has at most one task that sleeps, the one that `_suspect` holds for it, and no task
-- sleeps that `_suspect` does not hold.
pub record IsTimed (w : Worker) : Type 0 where
  pub held : (name : Text) (task : ℕ) → w.suspects name ≡ some task → w.sleeping task ≡ some name
  pub sleeps : (name : Text) (task : ℕ) → w.sleeping task ≡ some name → w.suspects name ≡ some task
  pub fresh : (name : Text) (task : ℕ) → w.sleeping task ≡ some name → task < w.next_task

start_suspect-IsTimed :
    (target : Text) (w : Worker)
    → w.suspects target ≡ none
    → IsTimed w
    → IsTimed (start_suspect target w)
start_suspect-IsTimed target w idle t = record {
  held = λ n k h. ground (arith, t.held n k, t.fresh n k);
  sleeps = λ n k h. ground (arith, t.sleeps n k, t.fresh n k);
  fresh = λ n k h. ground (arith, t.fresh n k);
}

pub cancel-IsTimed :
    (target : Text) (task : ℕ) (w : Worker)
    → w.suspects target ≡ some task
    → IsTimed w
    → IsTimed (cancel target task w)
cancel-IsTimed target task w busy t = record {
  held = λ n k h. ground (arith, t.held n k, t.held target task);
  sleeps = λ n k h. ground (arith, t.sleeps n k, t.held target task);
  fresh = λ n k h. ground (arith, t.fresh n k);
}

pub handle_status-IsTimed :
    (target : Text) (status : Status) (w : Worker)
    → IsTimed w
    → IsTimed (handle_status target status w)
unfolding handle_status
handle_status-IsTimed target status w t =
    elim (status_discrete status suspect)
      as (λ d. IsTimed (
        ite d (elim (w.suspects target) [ none ↦ start_suspect target w | some task ↦ w ])
          (elim (w.suspects target) [ none ↦ w | some task ↦ cancel target task w ]))) [
            | yes p ↦ elim (Option-cases (w.suspects target)) [
              | inl idle ↦ rw idle (start_suspect-IsTimed target w idle t)
              | inr (task, busy) ↦ rw busy t
            ]
            | no p ↦ elim (Option-cases (w.suspects target)) [
              | inl idle ↦ rw idle t
              | inr (task, busy) ↦ rw busy (cancel-IsTimed target task w busy t)
            ]
          ]
