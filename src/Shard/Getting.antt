-- ===== src/Shard/Getting.antt =====
-- What Get of src/shardkv/client.go returns, and that no round of the clerk panics.
use spring.Common.{
  ℕ, ◌<◌, ℤ, negsuc, List, [], Option, none, some, ◌≡◌, refl, sym, ap, ◌∙◌, get_elem?, length, inl,
  inr, ◌⊎◌, Bytes, >>=-eq-some,
}
use spring.Shard.Ctrler.{
  n_shards, Config, CtrlerNet, ok, err_no_key, err_wrong_group, err_wrong_leader, other_err, Err,
  QueryReply, QueryArgs,
}
use spring.Shard.Asking.{query-config}
use spring.Shard.Clerk.{
  key2shard, GetArgs, GetReply, returns, get_verdict, servers_for, Progress, has_returned,
  latest_config, get, PutAppendArgs, PutAppendReply, value_verdict, put_append, Op,
  put_append_verdict,
}
use spring.Shard.Serving.{key2shard_lt, serve_loop-returned, serve_loop-total}

value_verdict-returns :
    (e : Err) (value v : Bytes)
    → value_verdict e value ≡ returns v
    → ((e ≡ ok) ⊎ (e ≡ err_no_key)) × (value ≡ v)
value_verdict-returns ok value v h = (inl refl, cc h)
value_verdict-returns err_no_key value v h = (inr refl, cc h)
value_verdict-returns err_wrong_group value v h = absurd (cc h)
value_verdict-returns err_wrong_leader value v h = absurd (cc h)
value_verdict-returns (other_err e) value v h = absurd (cc h)

get_verdict-returns :
    (o : Option GetReply) (v : Bytes)
    → get_verdict o ≡ returns v
    → (reply : GetReply) × (o ≡ some reply)
      × ((reply.err ≡ ok) ⊎ (reply.err ≡ err_no_key))
      × (reply.value ≡ v)
get_verdict-returns none v h = absurd (cc h)
get_verdict-returns (some reply) v h =
    let (e, k) = value_verdict-returns reply.err reply.value v h in (reply, refl, e, k)

-- The names of the servers come from the group that the configuration gives the shard of the key.
servers_for-group :
    (key : Bytes) (config : Config) (servers : List Bytes) (i : ℕ) (s : Bytes)
    → servers_for key config ≡ some servers
    → get_elem? servers i ≡ some s
    → (gid : ℤ) × (get_elem? config.shards (key2shard key) ≡ some gid)
      × (config.groups gid ≡ some servers)
unfolding servers_for
servers_for-group key config servers i s h at =
    let (gid, e, h1) = >>=-eq-some (get_elem? config.shards (key2shard key)) _ h in
    (gid, e, group_of (config.groups gid) servers h1 at)
  where
    group_of :
        (o : Option (List Bytes)) (servers : List Bytes)
        → some (elim o [ none ↦ [] | some names ↦ names ]) ≡ some servers
        → get_elem? servers i ≡ some s
        → o ≡ some servers
    group_of none servers h at =
        let e : [] ≡ servers = cc h in absurd (cc (at, ap (λ l. get_elem? l i) e))
    group_of (some names) servers h at = h

module _ {W E : Type 0} (net : CtrlerNet W E) (ctrlers : List E) (query_rounds : ℕ)
    (make_end : Bytes → E) (get_call : E → GetArgs → W → W × Option GetReply)
    (put_append_call : E → PutAppendArgs → W → W × Option PutAppendReply) where
  abbrev pub IsHeld : Config → Config → Type 0
  IsHeld config c =
      (c ≡ config)
      ⊎ ((w : W) × (w' : W) × (latest_config net ctrlers query_rounds make_end get_call
              put_append_call w
            ≡ (w', some c)))

  -- When `Get` returns, a configuration that the clerk has started with or that `Query` has given
  -- it assigns the shard of the key to a group, a server of that group has answered with OK or
  -- ErrNoKey, and the result is the value of that answer.
  pub get_lem :
      (key : Bytes) (n : ℕ) (config : Config) (w w' : W) (v : Bytes)
      → get net ctrlers query_rounds make_end get_call put_append_call key n config w
        ≡ some (w', has_returned v)
      → (c : Config) × (gid : ℤ) × (servers : List Bytes) × (i : ℕ) × (s : Bytes) × (w0 : W)
        × (reply : GetReply) × IsHeld config c
        × (get_elem? c.shards (key2shard key) ≡ some gid)
        × (c.groups gid ≡ some servers)
        × (get_elem? servers i ≡ some s)
        × (get_call (make_end s) (record { key = key }) w0 ≡ (w', some reply))
        × ((reply.err ≡ ok) ⊎ (reply.err ≡ err_no_key))
        × (reply.value ≡ v)
  unfolding get
  get_lem key n config w w' v h =
      let call : Bytes → W → W × Option GetReply =
        λ s. get_call (make_end s) (record { key = key }) in
      let latest = latest_config net ctrlers query_rounds make_end get_call put_append_call in
      let (c, servers, k, es, served) =
        serve_loop-returned call get_verdict net.sleep latest key n config w w' v h in
      let (i, s, w0, at, left, says) = served in
      let (gid, shard, group) = servers_for-group key c servers i s es at in
      let (reply, answer, e, value) = get_verdict-returns (call s w0).1 v says in
      (c, gid, servers, i, s, w0, reply, k, shard, group, at, cc (left, answer), e, value)

  -- Where the arrays of shards have their declared length, in the clerk's configuration and in
  -- those of the controller, no round of `Get` or of `PutAppend` reads a shard out of range: each of
  -- them returns, or waits, or goes on, without a panic.
  pub shards_bound :
      ((q : QueryReply) (e : E) (a : QueryArgs) (w : W)
        → (net.query_call e a w).1 ≡ some q
        → length q.config.shards ≡ n_shards)
      → (key value : Bytes) (op : Op) (n : ℕ) (config : Config) (w : W)
      → length config.shards ≡ n_shards
      → (key2shard key < n_shards)
        × ((out : W × Progress Bytes) × (get net ctrlers query_rounds make_end get_call
                put_append_call key n config w
              ≡ some out))
        × ((out : W × Progress Unit) × (put_append net ctrlers query_rounds make_end get_call
                put_append_call key value op n config w
              ≡ some out))
  unfolding get put_append latest_config
  shards_bound lengths key value op n config w l =
      let latest = latest_config net ctrlers query_rounds make_end get_call put_append_call in
      let gets : Bytes → W → W × Option GetReply =
        λ s. get_call (make_end s) (record { key = key }) in
      let puts : Bytes → W → W × Option PutAppendReply =
        λ s. put_append_call (make_end s) (record { key = key; value = value; op = op }) in
      let fetched_length : (w : W) (c : Config)
          → (latest w).1 ≡ some c
          → length c.shards ≡ n_shards =
        λ w c k.
          let (srv, w0, reply, a, e) = query-config net ctrlers query_rounds (negsuc 0) w c k in
          ap (λ (x : Config). length x.shards) (sym e)
          ∙ lengths reply srv (record { num = negsuc 0 }) w0 a in
      (
        key2shard_lt key,
        serve_loop-total gets get_verdict net.sleep latest key fetched_length n config w l,
        serve_loop-total puts put_append_verdict net.sleep latest key fetched_length n config w l,
      )
