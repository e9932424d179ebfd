-- ===== src/Mr/Repeats.antt =====
-- What src/mr/coordinator.go does with a task that is completed already.
use spring.Common.{
  ℕ, ◌+◌, ◌*◌, true, false, List, Option, none, some, ◌≡◌, refl, ap, subst, arith, ◌==◌, get_elem?,
  set, >>=-eq-some, insert, Bool, ◌≢◌, not, ◌&&◌, ltb,
}
use spring.Mr.Types.{
  idle, completed, TaskType, map_task, reduce_task, TasksMetadata, WorkerStatus, crash, Coordinator,
  ExampleArgs,
}
use spring.Mr.Coordinator.{set_state, add_files, tasks_of, with_tasks, commit_map, is_crash}
use spring.Mr.Counting.{one, count_completed, count-set}
use spring.Mr.Counted.{IsCounted}

-- A commit of a map task that is completed already is counted once more, where the counters were
-- right: the number of mapped tasks is then one above the number of completed ones.
pub recommit_overcounts :
    (args : ExampleArgs) (c : Coordinator) {t : TasksMetadata} {d : Coordinator}
    → IsCounted c
    → get_elem? c.map_tasks args.task.task_num ≡ some t
    → t.task_state ≡ completed
    → commit_map args c ≡ some d
    → d.n_mapped ≡ count_completed d.map_tasks + 1
unfolding commit_map set_state
recommit_overcounts args c {t} {d} v at st h =
    let num = args.task.task_num in
    let (rs, e, h') = >>=-eq-some (add_files num args.intermediates c.reduce_tasks) _ h in
    let (ts, e', h'') = >>=-eq-some (set_state completed num c.map_tasks) _ h' in
    let (u, a, b) = >>=-eq-some (get_elem? c.map_tasks num) _ e' in
    let u' = record u { task_state = completed } in
    let r : set c.map_tasks num u' ≡ ts = cc b in
    let w : u ≡ t = cc (a, at) in
    let n : c.n_mapped + 1 ≡ count_completed ts + 1 = omega (
      arith,
      v.mapped,
      ap count_completed r,
      count-set c.map_tasks num u' a,
      ap (λ x. one x.task_state) w,
      ap one st,
    ) in
    let whole : record c { n_mapped = c.n_mapped + 1; map_tasks = ts; reduce_tasks = rs } ≡ d =
      cc h'' in
    subst (λ (x : Coordinator). x.n_mapped ≡ count_completed x.map_tasks + 1) whole n

abbrev pub other_type : TaskType → TaskType
other_type map_task = reduce_task
other_type reduce_task = map_task

pub with_tasks-fields :
    (type : TaskType) (ts : List TasksMetadata) (c : Coordinator)
    → (tasks_of type (with_tasks type ts c) ≡ ts)
      × ((with_tasks type ts c).n_mapped ≡ c.n_mapped)
      × ((with_tasks type ts c).workers ≡ c.workers)
with_tasks-fields map_task ts c = (refl, refl, refl)
with_tasks-fields reduce_task ts c = (refl, refl, refl)

pub with_tasks-other :
    (type : TaskType) (ts : List TasksMetadata) (c : Coordinator)
    → tasks_of (other_type type) (with_tasks type ts c) ≡ tasks_of (other_type type) c
with_tasks-other map_task ts c = refl
with_tasks-other reduce_task ts c = refl

pub with_tasks-counts :
    (type : TaskType) (ts : List TasksMetadata) (c : Coordinator)
    → ((with_tasks type ts c).n_reduce ≡ c.n_reduce) × ((with_tasks type ts c).nfile ≡ c.nfile)
with_tasks-counts map_task ts c = (refl, refl)
with_tasks-counts reduce_task ts c = (refl, refl)

-- Whether `Heart` gives the worker up at time `now`.
abbrev pub is_silent : ℕ → WorkerStatus → Coordinator → Bool
is_silent now w c = not (is_crash w.status) && ltb (w.last_heartbeat + c.timeout * 1000000000) now

-- The worker `pid` is given up and its last task `t` is idle; nothing else has changed.
pub record GivenUp (pid : ℕ) (w : WorkerStatus) (t : TasksMetadata) (c d : Coordinator)
    : Type 0 where
  pub idle_again :
      tasks_of w.task_type d
      ≡ set (tasks_of w.task_type c) w.task_num (record t { task_state = idle })
  pub other_phase : tasks_of (other_type w.task_type) d ≡ tasks_of (other_type w.task_type) c
  pub mapped : d.n_mapped ≡ c.n_mapped
  pub reduces : d.n_reduce ≡ c.n_reduce
  pub inputs : d.nfile ≡ c.nfile
  pub given_up : d.workers pid ≡ some (record w { status = crash })
  pub others : (i : ℕ) → pid ≢ i → d.workers i ≡ c.workers i

-- What the check of `Heart` comes to: it leaves a worker that it has given up before, or that has
-- been heard within the timeout; it gives a silent one up and wakes the waiting calls; and it
-- panics where the last task of a silent one is none of the coordinator's.
pub data Check (now pid : ℕ) (w : WorkerStatus) (c : Coordinator)
    : Option (Coordinator × Bool) → Type 0 where
  leaves : is_silent now w c ≡ false → Check now pid w c (some (c, false))
  gives_up :
      {t : TasksMetadata} {d : Coordinator}
      → is_silent now w c ≡ true
      → get_elem? (tasks_of w.task_type c) w.task_num ≡ some t
      → GivenUp pid w t c d
      → Check now pid w c (some (d, true))
  panics :
      is_silent now w c ≡ true
      → get_elem? (tasks_of w.task_type c) w.task_num ≡ none
      → Check now pid w c none

abbrev given_up : ℕ → WorkerStatus → Coordinator → Coordinator
given_up pid w c = record c { workers = insert ◌==◌ pid (record w { status = crash }) c.workers }
