-- ===== src/Models/Tests.antt =====
-- The model of src/models/kv.go and the server of src/kvsrv at small inputs.
use spring.Models.Runs.{steps, Call, history, history_lem}
use spring.Kvsrv.Clerk.{Request, put_request, append_request, get_request, clear_request, serve_all}
use spring.Models.Kv.{of_key, partition, KvInput}
use spring.Common.{ℕ, [], ◌∷◌, true, ◌≡◌, refl, List}
use spring.Kvsrv.Server.{PutAppendArgs, start_kv_server, value_at}

abbrev args : PutAppendArgs
args = record { key = 1 ∷ []; value = 2 ∷ []; op_reg = 3 }

abbrev event : ℕ → KvInput
event k = record { op = 0; key = k ∷ []; value = [] }

split :
    partition (λ e. e) (λ ks. ks) (event 1 ∷ event 2 ∷ event 1 ∷ [])
    ≡ (event 1 ∷ event 1 ∷ []) ∷ (event 2 ∷ []) ∷ []
unfolding partition
split = refl

abbrev write_args : ℕ → ℕ → PutAppendArgs
write_args v n = record { key = 1 ∷ []; value = v ∷ []; op_reg = n }

-- A put that is tried again behind the append of another, whose reply is dropped, and two reads.
abbrev requests : List Request
requests =
    put_request (write_args 2 3)
    ∷ append_request (write_args 4 5)
    ∷ put_request (write_args 2 3)
    ∷ get_request (record { key = 1 ∷ []; op_reg = 6 })
    ∷ clear_request (record { op_reg = 5 })
    ∷ get_request (record { key = 9 ∷ []; op_reg = 7 })
    ∷ []

-- The repeated put is not in the history.
requests-history :
    steps [] (of_key (λ (c : Call). c.0) (1 ∷ []) (history requests start_kv_server))
    ≡ (true, 2 ∷ 4 ∷ [])
unfolding steps of_key history start_kv_server
requests-history = refl

history_lem_example :
    steps
      (value_at (1 ∷ []) start_kv_server.data_map)
      (of_key (λ (c : Call). c.0) (1 ∷ []) (history requests start_kv_server))
    ≡ (true, value_at (1 ∷ []) (serve_all requests start_kv_server).data_map)
history_lem_example = history_lem (1 ∷ []) requests start_kv_server
