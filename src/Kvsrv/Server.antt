-- ===== src/Kvsrv/Server.antt =====
-- src/kvsrv/server.go and the messages of src/kvsrv/common.go. A handler runs under the lock from
-- its start to its end, so each is one function of the state.
use spring.Common.{ℕ, [], ◌++◌, Option, none, some, ◌==◌, Bytes, same, empty, insert, erase}

-- The arguments of the four calls. An OpReg is a number below 2^62.
pub record PutAppendArgs : Type 0 where
  pub key : Bytes
  pub value : Bytes
  pub op_reg : ℕ

pub record GetArgs : Type 0 where
  pub key : Bytes
  pub op_reg : ℕ

pub record ClearArgs : Type 0 where
  pub op_reg : ℕ

pub record KvServer : Type 0 where
  pub data_map : Bytes → Option Bytes
  pub op_cache : ℕ → Option Bytes

-- `kv.data[key]`, "" for a missing key.
abbrev pub or_empty : Option Bytes → Bytes
or_empty none = []
or_empty (some v) = v

unfoldable pub value_at : Bytes → (Bytes → Option Bytes) → Bytes
value_at key m = or_empty (m key)

unfoldable pub start_kv_server : KvServer
start_kv_server = record { data_map = empty; op_cache = empty }

unfoldable pub clear : ClearArgs → KvServer → KvServer
clear args kv = record kv { op_cache = erase ◌==◌ args.op_reg kv.op_cache }

unfoldable pub get : GetArgs → KvServer → Bytes
unfolding value_at
get args kv = value_at args.key kv.data_map

-- The end of `Put` and of `Append`: remember the old value, return it, write the new one.
unfoldable pub write : PutAppendArgs → Bytes → KvServer → KvServer × Bytes
unfolding value_at
write args new kv =
    let old = value_at args.key kv.data_map in
    (
      record kv {
        op_cache = insert ◌==◌ args.op_reg old kv.op_cache;
        data_map = insert same args.key new kv.data_map;
      },
      old,
    )

unfoldable pub put : PutAppendArgs → KvServer → KvServer × Bytes
unfolding write
put args kv = elim (kv.op_cache args.op_reg) [
  | none ↦ write args args.value kv
  | some value ↦ (kv, value)
]

unfoldable pub append : PutAppendArgs → KvServer → KvServer × Bytes
unfolding write value_at
append args kv = elim (kv.op_cache args.op_reg) [
  | none ↦ write args (value_at args.key kv.data_map ++ args.value) kv
  | some value ↦ (kv, value)
]

-- One round of `ClearClients`.
unfoldable pub clear_clients : KvServer → KvServer
clear_clients kv = record kv { op_cache = empty }
