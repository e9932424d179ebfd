-- ===== src/Mr/Tests/Pairs.antt =====
-- The worker of src/mr/worker.go on small inputs, and the theorem at one of them.
use spring.Mr.Types.{map_task, inproc, input}
use spring.Mr.Coordinator.{hands}
use spring.Common.{pos, ℕ, List, [], ◌∷◌, some, ◌≡◌, refl, Bytes}
use spring.Mr.Tests.Encoding.{json}
use spring.Mr.Worker.{worker_turn, commits_task, KeyValue, do_map, do_reduce}

abbrev pair : ℕ → ℕ → KeyValue
pair k v = record { key = k ∷ []; value = v ∷ [] }

abbrev hash : Bytes → ℕ
hash [] = 0
hash (x ∷ xs) = x

abbrev pairs : List KeyValue
pairs = pair 4 1 ∷ pair 5 2 ∷ pair 6 3 ∷ []

-- The map function gives the three pairs; the hash of a key is its first byte.
mapped :
    do_map json hash 2 (λ name content. pairs) (([], []) ∷ [])
    ≡ some ((0, (1 ∷ 4 ∷ 1 ∷ []) ∷ (1 ∷ 6 ∷ 3 ∷ []) ∷ []) ∷ (1, (1 ∷ 5 ∷ 2 ∷ []) ∷ []) ∷ [])
unfolding do_map
mapped = refl

-- The reduce function gives the first value of a group; the pairs are sorted already.
reduced_pairs :
    do_reduce json
      (λ kvs. kvs)
      (λ k vs. k)
      (((1 ∷ 4 ∷ 1 ∷ []) ∷ (1 ∷ 4 ∷ 2 ∷ []) ∷ []) ∷ ((1 ∷ 5 ∷ 2 ∷ []) ∷ []) ∷ [])
    ≡ some ((4 ∷ [], 4 ∷ []) ∷ (5 ∷ [], 5 ∷ []) ∷ [])
unfolding do_reduce
reduced_pairs = refl

-- The worker commits the map task that it is handed.
turned :
    worker_turn json hash
      (λ name content. pairs)
      (λ f. [])
      (λ f. [])
      7
      (hands 0
        (record {
          task_type = map_task;
          task_num = 0;
          task_state = inproc;
          filename = input [] ∷ [];
        })
        (pos 2))
    ≡ some (
        commits_task (record {
          task = record {
            task_type = map_task;
            task_num = 0;
            task_state = inproc;
            filename = input [] ∷ [];
          };
          intermediates = 0 ∷ 1 ∷ [];
          work_id = 7;
        }))
unfolding worker_turn
turned = refl
