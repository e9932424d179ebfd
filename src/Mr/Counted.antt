-- ===== src/Mr/Counted.antt =====
-- The counters of src/mr/coordinator.go agree with the states of its tasks.
use spring.Common.{
  ℕ, zero, suc, ◌+◌, ◌-◌, Bool, true, false, not, ◌&&◌, List, [], ◌∷◌, Option, none, some, ◌≡◌,
  refl, ◌↔◌, ap, sym, ◌∙◌, subst, arith, ◌==◌, ==_iff, length, set, get_elem?, length-set,
  >>=-eq-some, pos, Bytes,
}
use spring.Mr.Types.{
  TaskState, idle, inproc, completed, TaskType, map_task, reduce_task, TasksMetadata, WorkerStatus,
  Coordinator,
}
use spring.Mr.Coordinator.{
  set_state, done, is_zero, tasks_of, with_tasks, Event, beats, asks, commits, checks, step,
  init_coordinator,
}
use spring.Mr.Counting.{
  is_completed, one, count_completed, AllCompleted, count_completed_le, count-set, all_completed,
  completed_all, map_tasks_from-count, reduce_tasks_from-count,
}

-- The counters agree with the states of the tasks.
pub record IsCounted (c : Coordinator) : Type 0 where
  pub mapped : c.n_mapped ≡ count_completed c.map_tasks
  pub files : c.nfile ≡ length c.map_tasks
  pub reduced : c.n_reduce ≡ pos (length c.reduce_tasks - count_completed c.reduce_tasks)

abbrev pub state_of : ℕ → List TasksMetadata → Option TaskState
state_of num ts = elim (get_elem? ts num) [ none ↦ none | some t ↦ some t.task_state ]

abbrev pub open_task : Option TaskState → Bool
open_task none = true
open_task (some s) = not (is_completed s)

abbrev pub open_worker : Option WorkerStatus → Coordinator → Bool
open_worker none c = true
open_worker (some w) c = open_task (state_of w.task_num (tasks_of w.task_type c))

-- A commit is of a task that is not completed yet, and `Heart` checks a worker whose last task is
-- not completed.
unfoldable pub regular : Event → Coordinator → Bool
regular (beats now pid) c = true
regular (asks pid) c = true
regular (commits args) c = open_task (state_of args.task.task_num (tasks_of args.task.task_type c))
regular (checks now pid) c = open_worker (c.workers pid) c

-- All the events of a run are, each at its time.
unfoldable pub regular_run : List Event → Coordinator → Bool
unfolding regular
regular_run [] c = true
regular_run (e ∷ es) c =
    regular e c && (elim (step e c) [ none ↦ true | some c' ↦ regular_run es c' ])

pub and_true : (a b : Bool) → (a && b) ≡ true → (a ≡ true) × (b ≡ true)
and_true true b h = (refl, h)
and_true false b h = absurd (cc h)

is_zero_iff : (n : ℕ) → (is_zero (pos n) ≡ true) ↔ (n ≡ 0)
is_zero_iff zero = (λ h. refl, λ h. refl)
is_zero_iff (suc n) = (λ h. absurd (cc h), λ h. absurd (omega (arith, h)))

pub done_iff :
    (c : Coordinator)
    → IsCounted c
    → (done c ≡ true) ↔ (AllCompleted c.map_tasks × AllCompleted c.reduce_tasks)
unfolding done
done_iff c v =
    let left = length c.reduce_tasks - count_completed c.reduce_tasks in
    (
      (λ h.
          let (h1, h2) = and_true (c.n_mapped == c.nfile) (is_zero c.n_reduce) h in
          let e = (==_iff c.n_mapped c.nfile).0 h1 in
          let z = (is_zero_iff left).0 (subst (λ x. is_zero x ≡ true) v.reduced h2) in
          (
            all_completed c.map_tasks (omega (arith, e, v.mapped, v.files)),
            all_completed c.reduce_tasks (omega (arith, z, count_completed_le c.reduce_tasks)),
          )),
      (λ (a, b).
          let e : c.n_mapped ≡ c.nfile =
            omega (arith, v.mapped, v.files, completed_all c.map_tasks a) in
          rw ((==_iff c.n_mapped c.nfile).1 e, v.reduced)
            ((is_zero_iff left).1 (omega (arith, completed_all c.reduce_tasks b)))),
    )

one_open : (s : TaskState) → not (is_completed s) ≡ true → one s ≡ 0
one_open idle h = refl
one_open inproc h = refl
one_open completed h = absurd (cc h)

pub set_state-count :
    (s : TaskState) (num : ℕ) (ts : List TasksMetadata) {rs : List TasksMetadata}
    → set_state s num ts ≡ some rs
    → open_task (state_of num ts) ≡ true
    → (count_completed rs ≡ count_completed ts + one s) × (length rs ≡ length ts)
unfolding set_state
set_state-count s num ts {rs} h d =
    let (t, e, h') = >>=-eq-some (get_elem? ts num) _ h in
    let u = record t { task_state = s } in
    let r : set ts num u ≡ rs = cc h' in
    let o =
      one_open t.task_state
        (subst (λ g. open_task (elim g [ none ↦ none | some t ↦ some t.task_state ]) ≡ true) e d) in
    (
      omega (arith, ap count_completed r, count-set ts num u e, o),
      sym (ap length r) ∙ length-set ts num u,
    )

pub init-IsCounted : (files : List Bytes) (n : ℕ) → IsCounted (init_coordinator files n)
unfolding init_coordinator
init-IsCounted files n =
    let (mc, ml) = map_tasks_from-count 0 files in
    let (rc, rl) = reduce_tasks_from-count 0 n in
    record { mapped = sym mc; files = sym ml; reduced = ap pos (omega (arith, rc, rl)) }

pub with_tasks-IsCounted :
    (type : TaskType) (ts : List TasksMetadata) (c : Coordinator)
    → count_completed ts ≡ count_completed (tasks_of type c)
    → length ts ≡ length (tasks_of type c)
    → IsCounted c
    → IsCounted (with_tasks type ts c)
with_tasks-IsCounted map_task ts c hc hl v = record {
  mapped = v.mapped ∙ sym hc;
  files = v.files ∙ sym hl;
  reduced = v.reduced;
}
with_tasks-IsCounted reduce_task ts c hc hl v = record {
  mapped = v.mapped;
  files = v.files;
  reduced = v.reduced ∙ (rw (hc, hl) refl);
}

-- The workers are not counted.
pub with_workers-IsCounted :
    (ws : ℕ → Option WorkerStatus) (c : Coordinator)
    → IsCounted c
    → IsCounted (record c { workers = ws })
with_workers-IsCounted ws c v = record { mapped = v.mapped; files = v.files; reduced = v.reduced }
