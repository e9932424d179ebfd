-- ===== src/Mr/Handing.antt =====
-- Which task `Task` of src/mr/coordinator.go hands out.
use spring.Common.{ℕ, ◌<◌, false, List, some, ◌≡◌, ◌≢◌, get_elem?, set}
use spring.Mr.Types.{work, TasksMetadata, Coordinator}
use spring.Mr.Coordinator.{
  is_idle, tasks_of, with_tasks, phase, in_process, meet, hands, busy, known,
}
use spring.Mr.Repeats.{other_type}

-- No task before index `n` is idle.
abbrev pub NoneIdle : ℕ → List TasksMetadata → Type 0
NoneIdle n ts =
    (j : ℕ) (u : TasksMetadata) → j < n → get_elem? ts j ≡ some u → is_idle u.task_state ≡ false

-- Task `num`, `u` before, of the phase of `c` is in process with worker `pid`; nothing else has
-- changed.
pub record HandedOut (pid num : ℕ) (u : TasksMetadata) (c d : Coordinator) : Type 0 where
  pub tasks : tasks_of (phase c) d ≡ set (tasks_of (phase c) c) num (in_process (phase c) num u)
  pub other_phase : tasks_of (other_type (phase c)) d ≡ tasks_of (other_type (phase c)) c
  pub mapped : d.n_mapped ≡ c.n_mapped
  pub reduces : d.n_reduce ≡ c.n_reduce
  pub inputs : d.nfile ≡ c.nfile
  pub worker :
      d.workers pid
      ≡ some (record (known (c.workers pid)) { status = work; task_num = num; task_type = phase c })
  pub others : (i : ℕ) → pid ≢ i → d.workers i ≡ c.workers i

-- The coordinator when `Task` returns a task.
abbrev handed_out : ℕ → ℕ → TasksMetadata → Coordinator → Coordinator
handed_out pid num u c = busy pid (hands num (in_process (phase c) num u) c.n_reduce) (
    with_tasks (phase c) (set (tasks_of (phase c) (meet pid c)) num (in_process (phase c) num u))
      (meet pid c))
