-- ===== src/Mr/Coordinator.antt =====
-- The coordinator of src/mr/coordinator.go. `none` is a panic: an index outside a slice, or a
-- worker that the coordinator does not know.
use spring.Common.{
  ℕ, zero, suc, ◌+◌, ◌-◌, ◌*◌, Bool, true, false, not, ◌&&◌, List, [], ◌∷◌, ◌++◌, Option, none,
  some, ltb, ◌==◌, if◌then◌else◌, length, set, get_elem?, ◌>>=◌, ℤ, pos, negsuc, insert, empty,
  Bytes,
}
use spring.Mr.Types.{
  TaskState, idle, inproc, completed, TaskType, map_task, reduce_task, Status, free, work, crash,
  input, intermediate, WorkerStatus, TasksMetadata, Coordinator, ExampleArgs,
}

-- `&WorkerStatus{}`
abbrev pub new_worker : WorkerStatus
new_worker = record { last_heartbeat = 0; task_type = map_task; task_num = 0; status = free }

abbrev pub known : Option WorkerStatus → WorkerStatus
known none = new_worker
known (some w) = w

-- `if c.Workers[pid] == nil { c.Workers[pid] = &WorkerStatus{} }`
abbrev pub meet : ℕ → Coordinator → Coordinator
meet pid c = record c { workers = insert ◌==◌ pid (known (c.workers pid)) c.workers }

unfoldable pub heartbeat : ℕ → ℕ → Coordinator → Coordinator
heartbeat now pid c = record c {
  workers = insert ◌==◌ pid (record (known (c.workers pid)) { last_heartbeat = now }) c.workers;
}

abbrev pub is_idle : TaskState → Bool
is_idle idle = true
is_idle _ = false

-- The first task that is IDLE.
unfoldable pub first_idle : List TasksMetadata → Option ℕ
first_idle [] = none
first_idle (x ∷ xs) =
    let rest = first_idle xs in
    if is_idle x.task_state then some 0 else elim rest [ none ↦ none | some k ↦ some (suc k) ]

abbrev pub is_zero : ℤ → Bool
is_zero (pos zero) = true
is_zero _ = false

unfoldable pub done : Coordinator → Bool
done c = (c.n_mapped == c.nfile) && is_zero c.n_reduce

-- What `Task` does: it hands a task out, ends the worker, or blocks on `Cond`; it replies RPCERROR
-- when it is woken.
pub data Answer : Type 0 where
  hands : ℕ → TasksMetadata → ℤ → Answer
  ends : Answer
  waits : Answer

abbrev pub no_task : Coordinator → Answer
no_task c = if done c then ends else waits

-- Whether the maps are all counted, and so reduce tasks are handed out.
abbrev pub phase : Coordinator → TaskType
phase c = if c.n_mapped == c.nfile then reduce_task else map_task

abbrev pub tasks_of : TaskType → Coordinator → List TasksMetadata
tasks_of map_task c = c.map_tasks
tasks_of reduce_task c = c.reduce_tasks

abbrev pub with_tasks : TaskType → List TasksMetadata → Coordinator → Coordinator
with_tasks map_task ts c = record c { map_tasks = ts }
with_tasks reduce_task ts c = record c { reduce_tasks = ts }

abbrev pub in_process : TaskType → ℕ → TasksMetadata → TasksMetadata
in_process type num t = record t { task_type = type; task_num = num; task_state = inproc }

-- The part of `Task` under the coordinator's lock.
unfoldable pub assign : Coordinator → Coordinator × Answer
unfolding first_idle done
assign c = elim (first_idle (tasks_of (phase c) c)) [
  | none ↦ (c, no_task c)
  | some num ↦ elim (get_elem? (tasks_of (phase c) c) num) [
    | none ↦ (c, no_task c)
    | some t ↦ (
      with_tasks (phase c) (set (tasks_of (phase c) c) num (in_process (phase c) num t)) c,
      hands num (in_process (phase c) num t) c.n_reduce,
    )
  ]
]

-- The part under the worker's lock.
abbrev pub busy : ℕ → Answer → Coordinator → Coordinator
busy pid (hands num t n) c = record c {
  workers =
      insert ◌==◌ pid
        (record (known (c.workers pid)) { status = work; task_num = num; task_type = t.task_type })
        c.workers;
}
busy pid ends c = c
busy pid waits c = c

unfoldable pub task : ℕ → Coordinator → Coordinator × Answer
unfolding assign
task pid c = let out = assign (meet pid c) in (busy pid out.1 out.0, out.1)

-- `CommitOK`: the files of a map task are added to the reduce tasks.
unfoldable pub add_files : ℕ → List ℕ → List TasksMetadata → Option (List TasksMetadata)
add_files num [] ts = some ts
add_files num (x ∷ xs) ts = do
  t ← get_elem? ts x
  add_files num xs (set ts x (record t { filename = t.filename ++ (intermediate num x ∷ []) }))

abbrev pub less_one : ℤ → ℤ
less_one (pos zero) = negsuc 0
less_one (pos (suc n)) = pos n
less_one (negsuc n) = negsuc (suc n)

-- `Task[num].TaskState = s`
unfoldable pub set_state : TaskState → ℕ → List TasksMetadata → Option (List TasksMetadata)
set_state s num ts = do t ← get_elem? ts num; some (set ts num (record t { task_state = s }))

unfoldable pub commit_reduce : ExampleArgs → Coordinator → Option Coordinator
unfolding set_state
commit_reduce args c = do
  ts ← set_state completed args.task.task_num c.reduce_tasks
  some (record c { n_reduce = less_one c.n_reduce; reduce_tasks = ts })

unfoldable pub commit_map : ExampleArgs → Coordinator → Option Coordinator
unfolding set_state add_files
commit_map args c = do
  rs ← add_files args.task.task_num args.intermediates c.reduce_tasks
  ts ← set_state completed args.task.task_num c.map_tasks
  some (record c { n_mapped = c.n_mapped + 1; map_tasks = ts; reduce_tasks = rs })

abbrev pub set_free : ℕ → Coordinator → Option Coordinator
set_free pid c = do
  w ← c.workers pid
  some (record c { workers = insert ◌==◌ pid (record w { status = free }) c.workers })

abbrev pub commit_type : TaskType → ExampleArgs → Coordinator → Option Coordinator
commit_type map_task args c = commit_map args c
commit_type reduce_task args c = commit_reduce args c

-- Whether the waiting calls of `Task` are woken.
abbrev pub wakes : TaskType → Coordinator → Bool
wakes map_task c = c.n_mapped == c.nfile
wakes reduce_task c = is_zero c.n_reduce

unfoldable pub commit_ok : ExampleArgs → Coordinator → Option (Coordinator × Bool)
unfolding commit_reduce commit_map
commit_ok args c = do
  c' ← commit_type args.task.task_type args c
  c'' ← set_free args.work_id c'
  some (c'', wakes args.task.task_type c'')

-- The tasks of `initCoordinator`.
unfoldable pub map_tasks_from : ℕ → List Bytes → List TasksMetadata
map_tasks_from i [] = []
map_tasks_from i (f ∷ fs) =
    record { task_type = map_task; task_num = i; task_state = idle; filename = input f ∷ [] }
    ∷ map_tasks_from (i + 1) fs

unfoldable pub reduce_tasks_from : ℕ → ℕ → List TasksMetadata
reduce_tasks_from i zero = []
reduce_tasks_from i (suc n) =
    record { task_type = reduce_task; task_num = i; task_state = idle; filename = [] }
    ∷ reduce_tasks_from (i + 1) n

unfoldable pub init_coordinator : List Bytes → ℕ → Coordinator
unfolding map_tasks_from reduce_tasks_from
init_coordinator files n = record {
  map_tasks = map_tasks_from 0 files;
  reduce_tasks = reduce_tasks_from 0 n;
  n_reduce = pos n;
  n_mapped = 0;
  nfile = length files;
  workers = empty;
  timeout = 4;
}

abbrev pub is_crash : Status → Bool
is_crash crash = true
is_crash _ = false

-- The body of the loop of `Heart` for one worker: the new state, and whether it wakes.
unfoldable pub heart_check : ℕ → ℕ → WorkerStatus → Coordinator → Option (Coordinator × Bool)
unfolding set_state
heart_check now pid w c =
    if not (is_crash w.status) && ltb (c.timeout * 1000000000) (now - w.last_heartbeat)
    then (do
      ts ← set_state idle w.task_num (tasks_of w.task_type c)
      some (
        with_tasks w.task_type ts
            (record c { workers = insert ◌==◌ pid (record w { status = crash }) c.workers }),
        true,
      ))
    else some (c, false)

-- What happens to the coordinator. `Heart` reads the worker from its map.
pub data Event : Type 0 where
  beats : (now pid : ℕ) → Event
  asks : (pid : ℕ) → Event
  commits : ExampleArgs → Event
  checks : (now pid : ℕ) → Event

unfoldable pub step : Event → Coordinator → Option Coordinator
unfolding heartbeat task commit_ok heart_check
step (beats now pid) c = some (heartbeat now pid c)
step (asks pid) c = some (task pid c).0
step (commits args) c = do out ← commit_ok args c; some out.0
step (checks now pid) c = do w ← c.workers pid; out ← heart_check now pid w c; some out.0

unfoldable pub run : List Event → Coordinator → Option Coordinator
unfolding step
run [] c = some c
run (e ∷ es) c = do c' ← step e c; run es c'
