-- ===== src/Kvsrv/Tests.antt =====
-- Runs of the server and the clerk of src/kvsrv, and the theorems at them.
use spring.Common.{ℕ, List, [], ◌∷◌, ◌++◌, none, some, Bytes, ◌≡◌, refl}
use spring.Kvsrv.Server.{PutAppendArgs, start_kv_server, value_at, clear}
use spring.Kvsrv.Clerk.{
  Request, get_request, put_request, append_request, clear_request, Round, lost, unanswered,
  answered, serve_all, append_op, put_append, clerk_get,
}
use spring.Kvsrv.Calls.{heard, gets_through, mentions, touches}
use spring.Kvsrv.Once.{wrote, put_append_once, get_reads_last}

abbrev key : Bytes
key = 107 ∷ []

abbrev own : PutAppendArgs
own = record { key = key; value = 118 ∷ []; op_reg = 5 }

abbrev other : ℕ → PutAppendArgs
other n = record { key = key; value = n ∷ []; op_reg = n }

-- The first request is lost, then two replies, and other clerks write in between.
abbrev rounds : List Round
rounds =
    (put_request (other 7) ∷ [], lost)
    ∷ (append_request (other 8) ∷ [], unanswered)
    ∷ (append_request (other 9) ∷ get_request (record { key = key; op_reg = 3 }) ∷ [], unanswered)
    ∷ ([], answered)
    ∷ []

abbrev clear_rounds : List Round
clear_rounds = (clear_request (record { op_reg = 7 }) ∷ [], unanswered) ∷ ([], answered) ∷ []

old_value : (put_append append_op own rounds clear_rounds start_kv_server).1 ≡ some (7 ∷ 8 ∷ [])
unfolding put_append start_kv_server
old_value = refl

put_append_once_example :
    (before after until since : List Request) × (before ++ after ≡ heard rounds)
    × (until ++ since ≡ heard clear_rounds)
    × (put_append append_op own rounds clear_rounds start_kv_server ≡ (
      serve_all since (
          clear
            (record { op_reg = 5 })
            (serve_all until
              (serve_all after (wrote append_op own (serve_all before start_kv_server))))),
      some (value_at key (serve_all before start_kv_server).data_map),
    ))
    × ((put_append append_op own rounds clear_rounds start_kv_server).0.op_cache 5 ≡ none)
unfolding heard gets_through mentions touches start_kv_server
put_append_once_example =
    put_append_once append_op own rounds clear_rounds start_kv_server refl refl refl refl refl

get_reads_last_example : clerk_get (record { key = key; op_reg = 3 }) rounds start_kv_server ≡ (
  serve_all (heard rounds) start_kv_server,
  some (value_at key (serve_all (heard rounds) start_kv_server).data_map),
)
unfolding gets_through
get_reads_last_example =
    get_reads_last (record { key = key; op_reg = 3 }) rounds start_kv_server refl
