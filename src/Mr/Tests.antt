-- ===== src/Mr/Tests.antt =====
-- Runs of the coordinator of src/mr/coordinator.go, and the theorems at them.
mod Pairs
mod Sorts
mod Encoding
mod Jobs
use spring.Common.{set, ◌+◌, true, List, [], ◌∷◌, Option, none, some, ◌≡◌, refl, ◌↔◌, arith, Bytes}
use spring.Mr.Types.{
  inproc, map_task, reduce_task, WorkerStatus, free, crash, Coordinator, ExampleArgs,
}
use spring.Mr.Coordinator.{
  Event, beats, asks, commits, checks, step, run, init_coordinator, done, commit_map, task,
}
use spring.Mr.Counting.{AllCompleted, count_completed}
use spring.Mr.Counted.{IsCounted, regular_run, init-IsCounted, state_of}
use spring.Mr.Progress.{done-run, run-IsCounted}
use spring.Mr.Repeats.{recommit_overcounts}

abbrev files : List Bytes
files = (97 ∷ []) ∷ (98 ∷ []) ∷ []

abbrev args : ExampleArgs
args = record {
  task = record { task_type = map_task; task_num = 0; task_state = inproc; filename = [] };
  intermediates = 0 ∷ [];
  work_id = 7;
}

abbrev second : ExampleArgs
second = record args { task = record args.task { task_num = 1 } }

abbrev reduced : ExampleArgs
reduced = record args { task = record args.task { task_type = reduce_task }; intermediates = [] }

abbrev or_start : Option Coordinator → Coordinator
or_start none = init_coordinator files 1
or_start (some c) = c

-- A worker does both map tasks, another is given up while it has the reduce task, and the first
-- does it.
abbrev life : List Event
life =
    beats 1 7
    ∷ asks 7
    ∷ commits args
    ∷ asks 7
    ∷ commits second
    ∷ beats 2 8
    ∷ asks 8
    ∷ checks 9000000000 8
    ∷ asks 7
    ∷ commits reduced
    ∷ []

abbrev finished : Coordinator
unfolding run init_coordinator
finished = or_start (run life (init_coordinator files 1))

is_done : done finished ≡ true
unfolding done run step init_coordinator
is_done = refl

done-run_example :
    (done finished ≡ true) ↔ (AllCompleted finished.map_tasks × AllCompleted finished.reduce_tasks)
unfolding finished run regular_run init_coordinator
done-run_example = done-run files 1 life refl refl

-- One map task is committed.
abbrev mapped_one : Coordinator
unfolding run init_coordinator
mapped_one = or_start (run (beats 1 7 ∷ asks 7 ∷ commits args ∷ []) (init_coordinator files 1))

mapped_one-IsCounted : IsCounted mapped_one
unfolding mapped_one run regular_run init_coordinator
mapped_one-IsCounted =
    run-IsCounted (beats 1 7 ∷ asks 7 ∷ commits args ∷ []) (init_coordinator files 1) refl refl
      (init-IsCounted files 1)

abbrev mapped_twice : Coordinator
unfolding commit_map mapped_one
mapped_twice = or_start (commit_map args mapped_one)

recommit_overcounts_example : mapped_twice.n_mapped ≡ count_completed mapped_twice.map_tasks + 1
unfolding mapped_twice mapped_one commit_map run init_coordinator
recommit_overcounts_example =
    recommit_overcounts args mapped_one mapped_one-IsCounted refl refl refl

abbrev worker : WorkerStatus
worker = record { last_heartbeat = 1; task_type = map_task; task_num = 0; status = free }
