-- ===== src/Mr/Progress.antt =====
-- The steps of src/mr/coordinator.go keep its counters right, and its end.
use spring.Common.{
  ℕ, zero, suc, ◌+◌, ◌-◌, ◌<◌, Bool, true, false, List, [], ◌∷◌, Option, none, some, ◌≡◌, refl, ◌↔◌,
  ap, sym, ◌∙◌, subst, arith, if◌then◌else◌, ◌==◌, length, set, length-set, Option-cases,
  >>=-eq-some, inl, inr, ◌⊎◌, insert, ◌>>=◌, pos, Bytes,
}
use spring.Mr.Types.{
  idle, completed, TaskType, map_task, reduce_task, TasksMetadata, WorkerStatus, crash, free,
  Coordinator, ExampleArgs,
}
use spring.Mr.Coordinator.{
  wakes, Answer, hands, ends, waits, first_idle, set_state, add_files, done, assign, tasks_of,
  with_tasks, phase, in_process, busy, task, heartbeat, commit_ok, commit_reduce, commit_map,
  heart_check, Event, beats, asks, commits, checks, step, run, init_coordinator, less_one, meet,
  set_free, commit_type,
}
use spring.Mr.Counting.{
  one, count_completed, AllCompleted, count_completed_le, count-set, first_idle-idle,
  add_files-count,
}
use spring.Mr.Counted.{
  IsCounted, state_of, open_task, open_worker, regular, regular_run, and_true, done_iff,
  set_state-count, init-IsCounted, with_tasks-IsCounted, with_workers-IsCounted,
}

assign-IsCounted : (c : Coordinator) → IsCounted c → IsCounted (assign c).0
unfolding assign
assign-IsCounted c v =
    let ts = tasks_of (phase c) c in
    elim (Option-cases (first_idle ts)) [
      | inl e ↦ rw (e, assign) v
      | inr (k, e) ↦
          (let (t, at, st) = first_idle-idle ts k e in
            let u = in_process (phase c) k t in
            rw (e, assign, at)
              (with_tasks-IsCounted (phase c) (set ts k u) c
                (omega (arith, count-set ts k u at, ap one st)) (length-set ts k u) v))
    ]

busy-IsCounted : (pid : ℕ) (a : Answer) (c : Coordinator) → IsCounted c → IsCounted (busy pid a c)
busy-IsCounted pid (hands num t n) c v = with_workers-IsCounted _ c v
busy-IsCounted pid ends c v = v
busy-IsCounted pid waits c v = v

task-IsCounted : (pid : ℕ) (c : Coordinator) → IsCounted c → IsCounted (task pid c).0
unfolding task
task-IsCounted pid c v =
    let out = assign (meet pid c) in
    busy-IsCounted pid out.1 out.0 (assign-IsCounted (meet pid c) (with_workers-IsCounted _ c v))

less_one-pos : (n : ℕ) → 0 < n → less_one (pos n) ≡ pos (n - 1)
less_one-pos zero h = absurd (omega (arith, h))
less_one-pos (suc n) h = ap pos (omega arith)

commit_type-IsCounted :
    (type : TaskType) (args : ExampleArgs) (c : Coordinator) {d : Coordinator}
    → commit_type type args c ≡ some d
    → open_task (state_of args.task.task_num (tasks_of type c)) ≡ true
    → IsCounted c
    → IsCounted d
unfolding commit_map commit_reduce
commit_type-IsCounted map_task args c {d} h o v =
    let num = args.task.task_num in
    let (rs, e, h') = >>=-eq-some (add_files num args.intermediates c.reduce_tasks) _ h in
    let (ts, e', h'') = >>=-eq-some (set_state completed num c.map_tasks) _ h' in
    let (rc, rl) = add_files-count num args.intermediates c.reduce_tasks e in
    let (tc, tl) = set_state-count completed num c.map_tasks e' o in
    let w : IsCounted (record c { n_mapped = c.n_mapped + 1; map_tasks = ts; reduce_tasks = rs }) =
      record {
        mapped = omega (arith, v.mapped, tc);
        files = v.files ∙ sym tl;
        reduced = v.reduced ∙ (rw (rc, rl) refl);
      } in
    subst IsCounted (cc h'') w
commit_type-IsCounted reduce_task args c {d} h o v =
    let num = args.task.task_num in
    let (ts, e, h') = >>=-eq-some (set_state completed num c.reduce_tasks) _ h in
    let (tc, tl) = set_state-count completed num c.reduce_tasks e o in
    let left = length c.reduce_tasks - count_completed c.reduce_tasks in
    let some_left : 0 < left = omega (arith, tc, tl, count_completed_le ts) in
    let w : IsCounted (record c { n_reduce = less_one c.n_reduce; reduce_tasks = ts }) = record {
      mapped = v.mapped;
      files = v.files;
      reduced =
          ap less_one v.reduced ∙ less_one-pos left some_left ∙ ap pos (omega (arith, tc, tl));
    } in
    subst IsCounted (cc h') w

commit_ok-IsCounted :
    (args : ExampleArgs) (c : Coordinator) {out : Coordinator × Bool}
    → commit_ok args c ≡ some out
    → open_task (state_of args.task.task_num (tasks_of args.task.task_type c)) ≡ true
    → IsCounted c
    → IsCounted out.0
unfolding commit_ok
commit_ok-IsCounted args c {out} h o v =
    let type = args.task.task_type in
    let (d, e, h') = >>=-eq-some (commit_type type args c) _ h in
    let (f, e', h'') = >>=-eq-some (set_free args.work_id d) _ h' in
    let (w, e3, h3) = >>=-eq-some (d.workers args.work_id) _ e' in
    let counted =
      with_workers-IsCounted (insert ◌==◌ args.work_id (record w { status = free }) d.workers) d
        (commit_type-IsCounted type args c e o v) in
    let left : (f, wakes type f) ≡ out = cc h'' in
    subst (λ (x : Coordinator × Bool). IsCounted x.0) left (subst IsCounted (cc h3) counted)

pub tasks_of-workers :
    (type : TaskType) (ws : ℕ → Option WorkerStatus) (c : Coordinator)
    → tasks_of type (record c { workers = ws }) ≡ tasks_of type c
tasks_of-workers map_task ws c = refl
tasks_of-workers reduce_task ws c = refl

guarded :
    (b : Bool) (m : Option (List TasksMetadata))
    (f : List TasksMetadata → Option (Coordinator × Bool)) (y : Coordinator × Bool)
    {out : Coordinator × Bool}
    → (if b then m >>= f else some y) ≡ some out
    → ((ts : List TasksMetadata) × (m ≡ some ts) × (f ts ≡ some out)) ⊎ (y ≡ out)
guarded true m f y h = inl (>>=-eq-some m f h)
guarded false m f y h = inr (cc h)

heart_check-IsCounted :
    (now pid : ℕ) (w : WorkerStatus) (c : Coordinator) {out : Coordinator × Bool}
    → heart_check now pid w c ≡ some out
    → open_task (state_of w.task_num (tasks_of w.task_type c)) ≡ true
    → IsCounted c
    → IsCounted out.0
unfolding heart_check
heart_check-IsCounted now pid w c {out} h o v =
    let type = w.task_type in
    let ws = insert ◌==◌ pid (record w { status = crash }) c.workers in
    let met = record c { workers = ws } in
    elim (guarded _ (set_state idle w.task_num (tasks_of type c)) _ (c, false) h) [
      | inl (ts, e, h') ↦
          (let (tc, tl) = set_state-count idle w.task_num (tasks_of type c) e o in
            let same_tasks = tasks_of-workers type ws c in
            let counted =
              with_tasks-IsCounted type ts met (omega (arith, tc, ap count_completed same_tasks))
                (tl ∙ sym (ap length same_tasks)) (with_workers-IsCounted ws c v) in
            let left : (with_tasks type ts met, true) ≡ out = cc h' in
            subst (λ (x : Coordinator × Bool). IsCounted x.0) left counted)
      | inr e ↦ subst (λ (x : Coordinator × Bool). IsCounted x.0) e v
    ]

step-IsCounted :
    (e : Event) (c : Coordinator) {d : Coordinator}
    → step e c ≡ some d
    → regular e c ≡ true
    → IsCounted c
    → IsCounted d
unfolding step regular heartbeat
step-IsCounted (beats now pid) c h o v =
    subst IsCounted (cc h) (with_workers-IsCounted (heartbeat now pid c).workers c v)
step-IsCounted (asks pid) c h o v = subst IsCounted (cc h) (task-IsCounted pid c v)
step-IsCounted (commits args) c h o v =
    let (out, e, h') = >>=-eq-some (commit_ok args c) _ h in
    subst IsCounted (cc h') (commit_ok-IsCounted args c e o v)
step-IsCounted (checks now pid) c h o v =
    let (w, e, h') = >>=-eq-some (c.workers pid) _ h in
    let (out, e', h'') = >>=-eq-some (heart_check now pid w c) _ h' in
    subst IsCounted (cc h'')
      (heart_check-IsCounted now pid w c e' (subst (λ x. open_worker x c ≡ true) e o) v)

pub run-IsCounted :
    (es : List Event) (c : Coordinator) {d : Coordinator}
    → run es c ≡ some d
    → regular_run es c ≡ true
    → IsCounted c
    → IsCounted d
unfolding run regular_run
run-IsCounted [] c h o v = subst IsCounted (cc h) v
run-IsCounted (e ∷ es) c h o v =
    let (c', s, h') = >>=-eq-some (step e c) _ h in
    let (now_ok, later) = and_true (regular e c) _ o in
    run-IsCounted es c' h'
      (subst (λ x. elim x [ none ↦ true | some d ↦ regular_run es d ] ≡ true) s later)
      (step-IsCounted e c s now_ok v)

-- In any run of the coordinator from its start in which each commit is of a task that is not yet
-- completed, and `Heart` checks no worker whose last task is completed, `Done` holds exactly when
-- every map task and every reduce task is completed.
pub done-run :
    (files : List Bytes) (n : ℕ) (es : List Event) {c : Coordinator}
    → run es (init_coordinator files n) ≡ some c
    → regular_run es (init_coordinator files n) ≡ true
    → (done c ≡ true) ↔ (AllCompleted c.map_tasks × AllCompleted c.reduce_tasks)
done-run files n es {c} h o =
    done_iff c (run-IsCounted es (init_coordinator files n) h o (init-IsCounted files n))
