-- ===== src/Mr/Sequential.antt =====
-- src/main/mrsequential.go, and the whole job of src/mr that it is compared with: a map task for
-- each file, then a reduce task for each number. The sort of the package sort and encoding/json are
-- parameters.
use spring.Common.{
  ℕ, zero, suc, ◌+◌, ◌==◌, ◌&&◌, ◌||◌, not, ltb, Bool, true, false, List, [], ◌∷◌, ◌++◌, Option,
  some, if◌then◌else◌, ◌>>=◌, Bytes,
}
use spring.Mr.Worker.{KeyValue, Json, groups, reduce_groups, do_map, do_reduce}

-- The order of strings, byte by byte.
unfoldable pub less_bytes : Bytes → Bytes → Bool
less_bytes [] [] = false
less_bytes [] (y ∷ ys) = true
less_bytes (x ∷ xs) [] = false
less_bytes (x ∷ xs) (y ∷ ys) = ltb x y || ((x == y) && less_bytes xs ys)

-- `ByKey.Less`
unfoldable pub less : KeyValue → KeyValue → Bool
unfolding less_bytes
less a b = less_bytes a.key b.key

-- No pair is less than the one before it: what `sort.IsSorted` tests of a `ByKey`.
unfoldable pub is_sorted : List KeyValue → Bool
unfolding less
is_sorted [] = true
is_sorted (a ∷ []) = true
is_sorted (a ∷ b ∷ kvs) = not (less b a) && is_sorted (b ∷ kvs)

-- The loop over the input files: the names and the contents.
unfoldable pub accumulate :
    (Bytes → Bytes → List KeyValue) → List (Bytes × Bytes) → List KeyValue → List KeyValue
accumulate mapf [] intermediate = intermediate
accumulate mapf ((filename, content) ∷ files) intermediate =
    accumulate mapf files (intermediate ++ mapf filename content)

-- The lines of `mr-out-0`.
unfoldable pub sequential :
    (List KeyValue → List KeyValue)
    → (Bytes → Bytes → List KeyValue)
    → (Bytes → List Bytes → Bytes)
    → List (Bytes × Bytes)
    → List (Bytes × Bytes)
unfolding accumulate groups reduce_groups
sequential sort mapf reducef files =
    reduce_groups reducef (groups (sort (accumulate mapf files [])))

-- The turns of the workers for the map tasks, each with one input file: the intermediate files, in
-- the order of the commits.
unfoldable pub map_phase :
    Json
    → (Bytes → ℕ)
    → ℕ
    → (Bytes → Bytes → List KeyValue)
    → List (Bytes × Bytes)
    → Option (List (List (ℕ × List Bytes)))
unfolding do_map
map_phase json sum32 n mapf [] = some []
map_phase json sum32 n mapf (f ∷ files) = do
  out ← do_map json sum32 n mapf (f ∷ [])
  outs ← map_phase json sum32 n mapf files
  some (out ∷ outs)

-- The file `mr-X-i.txt` of one map task, where it has written it.
unfoldable pub file_of : ℕ → List (ℕ × List Bytes) → List (List Bytes)
file_of i [] = []
file_of i ((j, f) ∷ out) = let rest = file_of i out in if j == i then f ∷ rest else rest

-- The files that reduce task `i` opens: CommitOK has appended one for each map task that names `i`,
-- in the order in which they have committed.
unfoldable pub files_of : ℕ → List (List (ℕ × List Bytes)) → List (List Bytes)
unfolding file_of
files_of i [] = []
files_of i (out ∷ outs) = file_of i out ++ files_of i outs

-- The turns of the workers for the reduce tasks `i`, `i + 1` and so on, `m` tasks: the lines of
-- `mr-out-i`, `mr-out-(i + 1)` and so on.
unfoldable pub reduce_phase :
    Json
    → (List KeyValue → List KeyValue)
    → (Bytes → List Bytes → Bytes)
    → List (List (ℕ × List Bytes))
    → ℕ
    → ℕ
    → Option (List (Bytes × Bytes))
unfolding do_reduce files_of
reduce_phase json sort reducef outs i zero = some []
reduce_phase json sort reducef outs i (suc m) = do
  out ← do_reduce json sort reducef (files_of i outs)
  rest ← reduce_phase json sort reducef outs (i + 1) m
  some (out ++ rest)

-- The whole job with `n` reduce tasks, in which each task is committed once, the map tasks before
-- the reduce tasks start; `committed` are the input files in the order of the commits.
unfoldable pub distributed :
    Json
    → (List KeyValue → List KeyValue)
    → (Bytes → ℕ)
    → ℕ
    → (Bytes → Bytes → List KeyValue)
    → (Bytes → List Bytes → Bytes)
    → List (Bytes × Bytes)
    → Option (List (Bytes × Bytes))
unfolding map_phase reduce_phase
distributed json sort sum32 n mapf reducef committed = do
  outs ← map_phase json sum32 n mapf committed
  reduce_phase json sort reducef outs 0 n
