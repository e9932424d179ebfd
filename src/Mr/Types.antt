-- ===== src/Mr/Types.antt =====
-- The data of src/mr/coordinator.go and the messages of src/mr/rpc.go. Times are in nanoseconds,
-- and Go's zero time is 0.
use spring.Common.{ℕ, List, Option, Bytes, ℤ}

-- IDLE, INPROC and COMPLETED.
pub data TaskState : Type 0 where
  idle inproc completed : TaskState

-- MAP and REDUCE.
pub data TaskType : Type 0 where
  map_task reduce_task : TaskType

-- FREE, WORK and CRASH.
pub data Status : Type 0 where
  free work crash : Status

-- An input file, or `mr-X-Y.txt` of map task X for reduce task Y.
pub data Filename : Type 0 where
  input : Bytes → Filename
  intermediate : ℕ → ℕ → Filename

pub record WorkerStatus : Type 0 where
  pub last_heartbeat : ℕ
  pub task_type : TaskType
  pub task_num : ℕ
  pub status : Status

pub record TasksMetadata : Type 0 where
  pub task_type : TaskType
  pub task_num : ℕ
  pub task_state : TaskState
  pub filename : List Filename

-- `n_reduce` is counted down at each commit of a reduce task. The timeout is in seconds.
pub record Coordinator : Type 0 where
  pub map_tasks : List TasksMetadata
  pub reduce_tasks : List TasksMetadata
  pub n_reduce : ℤ
  pub n_mapped : ℕ
  pub nfile : ℕ
  pub workers : ℕ → Option WorkerStatus
  pub timeout : ℕ

pub record ExampleArgs : Type 0 where
  pub task : TasksMetadata
  pub intermediates : List ℕ
  pub work_id : ℕ
