-- ===== src/Worker/Schedule.antt =====
-- swimprotocol/worker.py: the tasks of a worker side by side. Each part of a task between two waits is
-- an action, and the event loop runs them in any order.
use swim_protocol.Prelude.{
  ℕ, suc, Bool, true, false, Text, Bytes, List, [], ◌∷◌, ◌++◌, Option, none, some, if◌then◌else◌,
}
use swim_protocol.Result.{Result, ok, raise}
use swim_protocol.Packet.{Packet, Metadata}
use swim_protocol.Members
use swim_protocol.Worker.Defs.{Worker, assign_nth, handle, suspect_wait_end, disseminate}
use swim_protocol.Worker.Checks.{Phase, check_start, check_resume}

-- The calls of `check` that go on, by number, each with its target. `_run_handler` ends with the
-- first exception.
pub record World : Type 0 where
  pub worker : Worker
  pub checks : ℕ → Option (Text × Phase)
  pub next_check : ℕ
  pub is_handling : Bool

-- The application gives the local member other metadata by `changes`.
pub data Action : Type 0 where
  receives : Packet → Action
  handles : (Text → Bytes) → ℕ → Action
  wakes : ℕ → ℕ → Action
  checks : Text → Action
  resumes : ℕ → ℕ → List ℕ → ℕ → Action
  spreads : Text → Action
  changes : Metadata → ℕ → Action

-- `_run_handler` takes one packet, if there is one.
abbrev pub handled : Result (Unit {0}) × Worker → World → World
handled (ok u, w) s = record s { worker = w }
handled (raise e, w) s = record s { worker = w; is_handling = false }

abbrev pub handle_first : List Packet → (Text → Bytes) → ℕ → World → World
handle_first [] random now s = s
handle_first (packet ∷ packets) random now s =
    handled (handle packet random now (record s.worker { recv_queue = packets })) s

-- `run_subtask(self.check(target))`, for a member of the registry.
abbrev pub begin : Text → Phase × Worker → World → World
begin target (phase, w) s = record s {
  worker = w;
  checks = assign_nth s.next_check (some (target, phase)) s.checks;
  next_check = suc s.next_check;
}

-- A call of `check` that has ended or raised is gone; it waits on while `find` has too few draws.
abbrev pub go_on : ℕ → Text → Option (Result (Option Phase) × Worker) → World → World
go_on number target none s = s
go_on number target (some (raise e, w)) s = record s {
  worker = w;
  checks = assign_nth number none s.checks;
}
go_on number target (some (ok none, w)) s = record s {
  worker = w;
  checks = assign_nth number none s.checks;
}
go_on number target (some (ok (some phase), w)) s = record s {
  worker = w;
  checks = assign_nth number (some (target, phase)) s.checks;
}

unfoldable pub step : Action → World → World
step (receives packet) s = record s {
  worker = record s.worker { recv_queue = s.worker.recv_queue ++ packet ∷ [] };
}
step (handles random now) s =
    if s.is_handling then handle_first s.worker.recv_queue random now s else s
step (wakes task now) s = record s { worker = (suspect_wait_end task now s.worker).1 }
step (checks target) s = elim (s.worker.members.members target) [
  | none ↦ s
  | some m ↦ begin target (check_start target s.worker) s
]
step (resumes number count draws now) s = elim (s.checks number) [
  | none ↦ s
  | some (target, phase) ↦
      go_on number target (check_resume target phase count draws now s.worker) s
]
step (spreads target) s = record s { worker = disseminate target s.worker }
step (changes metadata now) s =
    let members = s.worker.members in
    record s {
      worker = record s.worker {
        members = (Members.update members.local none (some metadata) now members).1;
      };
    }

unfoldable pub run : List Action → World → World
run [] s = s
run (a ∷ actions) s = run actions (step a s)

unfoldable pub start : Worker → World
start w = record { worker = w; checks = λ _. none; next_check = 0; is_handling = true }
