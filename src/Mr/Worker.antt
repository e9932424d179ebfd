-- ===== src/Mr/Worker.antt =====
-- The worker of src/mr/worker.go: the partition of a map task and the groups of a reduce task. The
-- map function, the reduce function, the hash of hash/fnv, the sort of the package sort and
-- encoding/json are parameters. A file `mr-X-Y.txt` is the list of the JSON values that it holds;
-- an error of the file system ends the worker and is left out. `none` is a panic, or the end of
-- the worker by `log.Fatalf` at a value that cannot be decoded.
use spring.Mr.Types.{map_task, reduce_task, Filename, TasksMetadata, ExampleArgs}
use spring.Mr.Coordinator.{Answer, hands, ends, waits}
use spring.Common.{
  ℤ, pos, negsuc, ℕ, Bool, ◌+◌, ◌%◌, ◌^◌, true, false, List, [], ◌∷◌, ◌++◌, Option, some, set,
  get_elem?, replicate, ◌>>=◌, Bytes, same, none,
}

pub record KeyValue : Type 0 where
  pub key : Bytes
  pub value : Bytes

-- What is used of encoding/json: `Encode` of a pair, and `Decode` of the value that it has written,
-- which may fail. `is_text` is whether a string is valid UTF-8.
pub record Json : Type 0 where
  pub encode : KeyValue → Bytes
  pub decode : Bytes → Option KeyValue
  pub is_text : Bytes → Bool

-- `int(h.Sum32() & 0x7fffffff)`: the low 31 bits.
abbrev pub ihash : (Bytes → ℕ) → Bytes → ℕ
ihash sum32 key = sum32 key % 2 ^ 31

-- `intermediates[num] = append(intermediates[num], kv)`
unfoldable pub add_to : ℕ → KeyValue → List (List KeyValue) → Option (List (List KeyValue))
add_to num kv parts = do p ← get_elem? parts num; some (set parts num (p ++ (kv ∷ [])))

-- The loop over the pairs of a file.
unfoldable pub partition_into :
    (Bytes → ℕ) → ℕ → List KeyValue → List (List KeyValue) → Option (List (List KeyValue))
unfolding add_to
partition_into sum32 n [] parts = some parts
partition_into sum32 n (kv ∷ kvs) parts = do
  parts' ← add_to (ihash sum32 kv.key % n) kv parts
  partition_into sum32 n kvs parts'

-- The loop of `enc.Encode(&kv)` over a partition.
unfoldable pub encode_file : Json → List KeyValue → List Bytes
encode_file json [] = []
encode_file json (kv ∷ kvs) = json.encode kv ∷ encode_file json kvs

-- The partitions that are written: their numbers, and what `mr-X-i.txt` holds.
unfoldable pub written_from : Json → ℕ → List (List KeyValue) → List (ℕ × List Bytes)
unfolding encode_file
written_from json i [] = []
written_from json i ([] ∷ ps) = written_from json (i + 1) ps
written_from json i ((kv ∷ kvs) ∷ ps) =
    (i, encode_file json (kv ∷ kvs)) ∷ written_from json (i + 1) ps

-- `doMap` on the contents of the files of a task, from the partitions that the files before have
-- left: each file writes all the partitions again.
unfoldable pub map_files :
    Json
    → (Bytes → ℕ)
    → ℕ
    → (Bytes → Bytes → List KeyValue)
    → List (Bytes × Bytes)
    → List (List KeyValue)
    → Option (List (ℕ × List Bytes))
unfolding partition_into written_from
map_files json sum32 n mapf [] parts = some []
map_files json sum32 n mapf ((filename, content) ∷ files) parts = do
  parts' ← partition_into sum32 n (mapf filename content) parts
  rest ← map_files json sum32 n mapf files parts'
  some (written_from json 0 parts' ++ rest)

unfoldable pub do_map :
    Json
    → (Bytes → ℕ)
    → ℕ
    → (Bytes → Bytes → List KeyValue)
    → List (Bytes × Bytes)
    → Option (List (ℕ × List Bytes))
unfolding map_files
do_map json sum32 n mapf files = map_files json sum32 n mapf files (replicate n [])

-- The loops of `doReduce`: from the group of key `k` that holds `vs` so far.
unfoldable pub group : Bytes → List Bytes → List KeyValue → List (Bytes × List Bytes)
group k vs [] = (k, vs) ∷ []
group k vs (kv ∷ kvs) = elim (same kv.key k) [
  | true ↦ group k (vs ++ (kv.value ∷ [])) kvs
  | false ↦ (k, vs) ∷ group kv.key (kv.value ∷ []) kvs
]

unfoldable pub groups : List KeyValue → List (Bytes × List Bytes)
unfolding group
groups [] = []
groups (kv ∷ kvs) = group kv.key (kv.value ∷ []) kvs

-- The loop of `dec.Decode(&kv)` over one file.
unfoldable pub decode_file : Json → List Bytes → Option (List KeyValue)
decode_file json [] = some []
decode_file json (x ∷ xs) = do kv ← json.decode x; kvs ← decode_file json xs; some (kv ∷ kvs)

-- The loop that decodes the files of a reduce task into `intermediate`.
unfoldable pub decode_files : Json → List (List Bytes) → Option (List KeyValue)
unfolding decode_file
decode_files json [] = some []
decode_files json (f ∷ fs) = do
  kvs ← decode_file json f
  rest ← decode_files json fs
  some (kvs ++ rest)

-- A call of the reduce function for each group, and the line that it gives.
unfoldable pub reduce_groups :
    (Bytes → List Bytes → Bytes) → List (Bytes × List Bytes) → List (Bytes × Bytes)
reduce_groups reducef [] = []
reduce_groups reducef ((k, vs) ∷ gs) = (k, reducef k vs) ∷ reduce_groups reducef gs

-- The lines of `mr-out-X`.
unfoldable pub do_reduce :
    Json
    → (List KeyValue → List KeyValue)
    → (Bytes → List Bytes → Bytes)
    → List (List Bytes)
    → Option (List (Bytes × Bytes))
unfolding groups decode_files reduce_groups
do_reduce json sort reducef files = do
  kvs ← decode_files json files
  some (reduce_groups reducef (groups (sort kvs)))

-- `map2reduce`
unfoldable pub numbers : List (ℕ × List Bytes) → List ℕ
numbers [] = []
numbers ((i, f) ∷ rest) = i ∷ numbers rest

-- What the worker does with an answer of `Task`: it stops, asks again, or commits.
pub data Turn : Type 0 where
  stops : Turn
  asks_again : Turn
  commits_task : ExampleArgs → Turn

-- The package encoding/json, the hash, the map function, and the names and contents of the files.
module _ (json : Json) (sum32 : Bytes → ℕ) (mapf : Bytes → Bytes → List KeyValue)
    (name content : Filename → Bytes) where
  abbrev pub opened : List Filename → List (Bytes × Bytes)
  opened [] = []
  opened (f ∷ fs) = (name f, content f) ∷ opened fs

  -- The intermediates that `doTask` returns; a slice cannot be made of a negative length.
  unfoldable pub do_task : TasksMetadata → ℤ → Option (List ℕ)
  unfolding do_map numbers
  do_task t n = elim t.task_type [
    | reduce_task ↦ some []
    | map_task ↦ elim n [
      | negsuc m ↦ none
      | pos m ↦ (do files ← do_map json sum32 m mapf (opened t.filename); some (numbers files))
    ]
  ]

  -- One turn of the loop of `Worker`, from the answer to `CommitTask`.
  unfoldable pub worker_turn : ℕ → Answer → Option Turn
  unfolding do_task
  worker_turn pid ends = some stops
  worker_turn pid waits = some asks_again
  worker_turn pid (hands num t n) = do
    xs ← do_task t n
    some (commits_task (record { task = t; intermediates = xs; work_id = pid }))
