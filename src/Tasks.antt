-- ===== src/Tasks.antt =====
-- swimprotocol/tasks.py: `TaskOwner` and `DaemonTask`. A task is a number, new for each
-- `asyncio.create_task`.
use swim_protocol.Prelude.{ℕ, suc, List, [], ◌∷◌, Option, some, ℕ_discrete, ◌++◌}
use swim_protocol.Shuffle.{without}

-- `_running`, and the number of the next task.
pub record TaskOwner : Type 0 where
  pub running : List ℕ
  pub next_task : ℕ

unfoldable pub init : TaskOwner
init = record { running = []; next_task = 0 }

-- `run_subtask(coro)`: the task, which is in the set until it is done.
unfoldable pub run_subtask : TaskOwner → ℕ × TaskOwner
run_subtask o =
    let task = o.next_task in
    (task, record o { running = o.running ++ task ∷ []; next_task = suc task })

-- The callback of a task that is done.
unfoldable pub done : ℕ → TaskOwner → TaskOwner
done task o = record o { running = without ℕ_discrete task o.running }

-- `_task` of a `DaemonTask`.
pub record DaemonTask : Type 0 where
  pub task : Option ℕ

-- `__aenter__`, with the new task.
unfoldable pub enter : ℕ → DaemonTask → DaemonTask
enter task d = record { task = some task }

-- `__aexit__`: the task that it cancels, if any.
unfoldable pub exit : DaemonTask → Option ℕ
exit d = d.task
