-- ===== src/Shard/Clerk.antt =====
-- src/shardkv/common.go, and the clerk of src/shardkv/client.go. `none` is a panic.
use spring.Common.{
  ℕ, zero, suc, ◌%◌, negsuc, List, [], ◌∷◌, Option, none, some, Bytes, get_elem?, ◌>>=◌,
}
use spring.Shard.Ctrler.{
  n_shards, Config, Err, ok, err_no_key, err_wrong_group, err_wrong_leader, other_err, CtrlerNet,
  query,
}

pub data Op : Type 0 where
  put_op append_op : Op

pub record PutAppendArgs : Type 0 where
  pub key : Bytes
  pub value : Bytes
  pub op : Op

pub record PutAppendReply : Type 0 where
  pub err : Err

pub record GetArgs : Type 0 where
  pub key : Bytes

pub record GetReply : Type 0 where
  pub err : Err
  pub value : Bytes

unfoldable pub key2shard : Bytes → ℕ
key2shard [] = 0 % n_shards
key2shard (c ∷ key) = c % n_shards

-- What a clerk does with the answer of a server: it returns a result, leaves the group, or goes on
-- to the next server.
pub data Verdict (R : Type 0) : Type 0 where
  returns : R → Verdict R
  leaves : Verdict R
  goes_on : Verdict R

abbrev pub value_verdict : Err → Bytes → Verdict Bytes
value_verdict ok value = returns value
value_verdict err_no_key value = returns value
value_verdict err_wrong_group value = leaves
value_verdict err_wrong_leader value = goes_on
value_verdict (other_err e) value = goes_on

abbrev pub get_verdict : Option GetReply → Verdict Bytes
get_verdict none = goes_on
get_verdict (some reply) = value_verdict reply.err reply.value

abbrev pub put_append_verdict : Option PutAppendReply → Verdict Unit
put_append_verdict none = goes_on
put_append_verdict (some reply) = elim reply.err [
  | ok ↦ returns tt
  | err_no_key ↦ goes_on
  | err_wrong_group ↦ leaves
  | err_wrong_leader ↦ goes_on
  | other_err e ↦ goes_on
]

-- Where the loop goes from a server, with the rest of the loop.
abbrev pub act : {W R : Type 0} → Verdict R → W → W × Option R → W × Option R
act (returns r) w rest = (w, some r)
act leaves w rest = (w, none)
act goes_on w rest = rest

-- The loop over the servers of a group: the result, where one is returned.
unfoldable pub try_group :
    {W S Reply R : Type 0}
    → (S → W → W × Option Reply)
    → (Option Reply → Verdict R)
    → List S
    → W
    → W × Option R
try_group call verdict [] w = (w, none)
try_group call verdict (s ∷ servers) w =
    let tried = call s w in
    let rest = try_group call verdict servers tried.0 in act (verdict tried.1) tried.0 rest

-- The servers of the group that has the shard: a shard out of range is a panic, and a group that is
-- not in the configuration has none.
unfoldable pub servers_for : Bytes → Config → Option (List Bytes)
unfolding key2shard
servers_for key config = do
  gid ← get_elem? config.shards (key2shard key)
  some (elim (config.groups gid) [ none ↦ [] | some servers ↦ servers ])

-- One pass of the endless loop, up to the sleep.
unfoldable pub try_config :
    {W Reply R : Type 0}
    → (Bytes → W → W × Option Reply)
    → (Option Reply → Verdict R)
    → Bytes
    → Config
    → W
    → Option (W × Option R)
unfolding servers_for try_group
try_config call verdict key config w = do
  servers ← servers_for key config
  some (try_group call verdict servers w)

-- How a loop of the clerk stands after a number of rounds: it has returned, it waits for the
-- controller, or it is at the start of the next round, with its configuration.
pub data Progress (R : Type 0) : Type 0 where
  has_returned : R → Progress R
  waits_for_config : Progress R
  goes_round : Config → Progress R

-- Where the endless loop goes from a round, with the answer of the controller behind the sleep.
abbrev pub next :
    {W R : Type 0}
    → Option R
    → W
    → W × Option Config
    → (Config → W → Option (W × Progress R))
    → Option (W × Progress R)
next (some r) w fetched go = some (w, has_returned r)
next none w (w', none) go = some (w', waits_for_config)
next none w (w', some config) go = go config w'

-- The endless loop, with `ck.sm.Query(-1)` behind the sleep.
unfoldable pub serve_loop :
    {W Reply R : Type 0}
    → (Bytes → W → W × Option Reply)
    → (Option Reply → Verdict R)
    → (W → W)
    → (W → W × Option Config)
    → Bytes
    → ℕ
    → Config
    → W
    → Option (W × Progress R)
unfolding try_config
serve_loop call verdict sleep latest key zero config w = some (w, goes_round config)
serve_loop call verdict sleep latest key (suc n) config w = do
  (w', result) ← try_config call verdict key config w
  next result w' (latest (sleep w')) (serve_loop call verdict sleep latest key n)

-- `make_end`, the methods of a server of a group, and the clerk `sm` of the controller.
module _ {W E : Type 0} (net : CtrlerNet W E) (ctrlers : List E) (query_rounds : ℕ)
    (make_end : Bytes → E) (get_call : E → GetArgs → W → W × Option GetReply)
    (put_append_call : E → PutAppendArgs → W → W × Option PutAppendReply) where
  unfoldable pub latest_config : W → W × Option Config
  unfolding query
  latest_config w = query net ctrlers query_rounds (negsuc 0) w

  unfoldable pub get : Bytes → ℕ → Config → W → Option (W × Progress Bytes)
  unfolding serve_loop latest_config
  get key n config w =
      serve_loop (λ s. get_call (make_end s) (record { key = key })) get_verdict net.sleep
        latest_config key n config w

  unfoldable pub put_append : Bytes → Bytes → Op → ℕ → Config → W → Option (W × Progress Unit)
  unfolding serve_loop latest_config
  put_append key value op n config w =
      serve_loop (λ s. put_append_call (make_end s) (record { key = key; value = value; op = op }))
        put_append_verdict net.sleep latest_config key n config w
