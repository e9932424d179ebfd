-- ===== src/Models/Server.antt =====
-- The server of src/kvsrv/server.go against the model of src/models/kv.go, which its histories are
-- checked with.
use spring.Common.{true, none, ◌≡◌, refl, same_refl}
use spring.Kvsrv.Server.{KvServer, PutAppendArgs, value_at}
use spring.Kvsrv.Clerk.{Op, put_op, append_op, op_request, serve}
use spring.Kvsrv.Once.{serve_fresh, wrote, written}
use spring.Models.Kv.{KvInput, kv_step}

-- The input that is recorded for a call: Put is 1 and Append 3.
abbrev pub input_of : Op → PutAppendArgs → KvInput
input_of put_op args = record { op = 1; key = args.key; value = args.value }
input_of append_op args = record { op = 3; key = args.key; value = args.value }

value_at-wrote :
    (op : Op) (args : PutAppendArgs) (kv : KvServer)
    → value_at args.key (wrote op args kv).data_map
      ≡ written op (value_at args.key kv.data_map) args.value
unfolding value_at
value_at-wrote op args kv = rw (same_refl args.key) refl

-- A Put or an Append that the server handles for the first time is a step that the model allows
-- on the value of the key, with the reply as its output, and leads to the key's new value.
pub serve-kv_step :
    (op : Op) (args : PutAppendArgs) (kv : KvServer)
    → kv.op_cache args.op_reg ≡ none
    → kv_step
        (value_at args.key kv.data_map)
        (input_of op args)
        (record { value = (serve (op_request op args) kv).1 })
      ≡ (true, value_at args.key (serve (op_request op args) kv).0.data_map)
unfolding kv_step
serve-kv_step put_op args kv e =
    rw (serve_fresh put_op args kv e, value_at-wrote put_op args kv) refl
serve-kv_step append_op args kv e =
    rw
      (
        serve_fresh append_op args kv e,
        value_at-wrote append_op args kv,
        same_refl (value_at args.key kv.data_map),
      )
      refl
