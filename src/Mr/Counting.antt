-- ===== src/Mr/Counting.antt =====
-- Counting the completed tasks of src/mr/coordinator.go.
use spring.Common.{
  ℕ, zero, suc, ◌+◌, ◌≤◌, Bool, true, false, List, [], ◌∷◌, ◌++◌, Option, none, some, ◌≡◌, refl,
  ◌↔◌, ap, sym, ◌∙◌, arith, if◌then◌else◌, length, set, get_elem?, length-set, >>=-eq-some, inl,
  inr, ◌⊎◌, Bytes,
}
use spring.Mr.Types.{TaskState, idle, inproc, completed, TasksMetadata, intermediate}
use spring.Mr.Coordinator.{first_idle, is_idle, add_files, map_tasks_from, reduce_tasks_from}

abbrev pub is_completed : TaskState → Bool
is_completed completed = true
is_completed _ = false

abbrev pub one : TaskState → ℕ
one completed = 1
one _ = 0

unfoldable pub count_completed : List TasksMetadata → ℕ
count_completed [] = 0
count_completed (t ∷ ts) = one t.task_state + count_completed ts

abbrev pub AllCompleted : List TasksMetadata → Type 0
AllCompleted ts = (i : ℕ) (t : TasksMetadata) → get_elem? ts i ≡ some t → t.task_state ≡ completed

one_le : (s : TaskState) → one s ≤ 1
one_le idle = omega arith
one_le inproc = omega arith
one_le completed = omega arith

one_iff : (s : TaskState) → (one s ≡ 1) ↔ (s ≡ completed)
one_iff idle = ground arith
one_iff inproc = ground arith
one_iff completed = ground arith

pub count_completed_le : (ts : List TasksMetadata) → count_completed ts ≤ length ts
unfolding count_completed
count_completed_le [] = omega arith
count_completed_le (t ∷ ts) = omega (arith, one_le t.task_state, count_completed_le ts)

pub count-set :
    (ts : List TasksMetadata) (i : ℕ) {t : TasksMetadata} (u : TasksMetadata)
    → get_elem? ts i ≡ some t
    → count_completed (set ts i u) + one t.task_state ≡ count_completed ts + one u.task_state
unfolding count_completed
count-set [] i u h = absurd (cc h)
count-set (x ∷ xs) zero {t} u h =
    let e : x ≡ t = cc h in omega (arith, ap (λ s. one s.task_state) e)
count-set (x ∷ xs) (suc i) u h = omega (arith, count-set xs i u h)

pub all_completed : (ts : List TasksMetadata) → count_completed ts ≡ length ts → AllCompleted ts
unfolding count_completed
all_completed [] e i t h = absurd (cc h)
all_completed (x ∷ xs) e zero t h =
    let e' : x ≡ t = cc h in
    (one_iff t.task_state).0
      (omega (arith, ap (λ s. one s.task_state) e', one_le x.task_state, count_completed_le xs))
all_completed (x ∷ xs) e (suc i) t h =
    all_completed xs (omega (arith, one_le x.task_state, count_completed_le xs)) i t h

pub completed_all : (ts : List TasksMetadata) → AllCompleted ts → count_completed ts ≡ length ts
unfolding count_completed
completed_all [] h = refl
completed_all (x ∷ xs) h =
    omega (arith, (one_iff x.task_state).1 (h 0 x refl), completed_all xs (λ i t e. h (suc i) t e))

first_idle-cases :
    (b : Bool) (o : Option ℕ) (k : ℕ)
    → (if b then some 0 else elim o [ none ↦ none | some j ↦ some (suc j) ]) ≡ some k
    → ((b ≡ true) × (0 ≡ k)) ⊎ ((j : ℕ) × (o ≡ some j) × (suc j ≡ k))
first_idle-cases true o k h = inl (refl, cc h)
first_idle-cases false none k h = absurd (cc h)
first_idle-cases false (some j) k h = inr (j, refl, cc h)

idle_of : (s : TaskState) → is_idle s ≡ true → s ≡ idle
idle_of idle h = refl
idle_of inproc h = absurd (cc h)
idle_of completed h = absurd (cc h)

pub first_idle-idle :
    (ts : List TasksMetadata) (k : ℕ)
    → first_idle ts ≡ some k
    → (t : TasksMetadata) × (get_elem? ts k ≡ some t) × (t.task_state ≡ idle)
unfolding first_idle
first_idle-idle [] k h = absurd (cc h)
first_idle-idle (x ∷ xs) k h = elim (first_idle-cases (is_idle x.task_state) (first_idle xs) k h) [
  | inl (b, e) ↦ (x, ap (get_elem? (x ∷ xs)) (sym e), idle_of x.task_state b)
  | inr (j, e, e') ↦
      (let (t, at, st) = first_idle-idle xs j e in (t, ap (get_elem? (x ∷ xs)) (sym e') ∙ at, st))
]

pub add_files-count :
    (num : ℕ) (xs : List ℕ) (ts : List TasksMetadata) {rs : List TasksMetadata}
    → add_files num xs ts ≡ some rs
    → (count_completed rs ≡ count_completed ts) × (length rs ≡ length ts)
unfolding add_files
add_files-count num [] ts {rs} h =
    let e : ts ≡ rs = cc h in (ap count_completed (sym e), ap length (sym e))
add_files-count num (x ∷ xs) ts h =
    let (t, e, h') = >>=-eq-some (get_elem? ts x) _ h in
    let u = record t { filename = t.filename ++ (intermediate num x ∷ []) } in
    let (hc, hl) = add_files-count num xs (set ts x u) h' in
    (omega (arith, hc, count-set ts x u e), hl ∙ length-set ts x u)

pub map_tasks_from-count :
    (i : ℕ) (fs : List Bytes)
    → (count_completed (map_tasks_from i fs) ≡ 0) × (length (map_tasks_from i fs) ≡ length fs)
unfolding map_tasks_from count_completed
map_tasks_from-count i [] = (refl, refl)
map_tasks_from-count i (f ∷ fs) =
    let (a, b) = map_tasks_from-count (i + 1) fs in (omega (arith, a), ap suc b)

pub reduce_tasks_from-count :
    (i n : ℕ) → (count_completed (reduce_tasks_from i n) ≡ 0) × (length (reduce_tasks_from i n) ≡ n)
unfolding reduce_tasks_from count_completed
reduce_tasks_from-count i zero = (refl, refl)
reduce_tasks_from-count i (suc n) =
    let (a, b) = reduce_tasks_from-count (i + 1) n in (omega (arith, a), ap suc b)
