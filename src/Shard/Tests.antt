-- ===== src/Shard/Tests.antt =====
-- The clerks of src/shardctrler and src/shardkv on a small network, and the theorems at it.
use spring.Common.{
  zero, ℕ, suc, ◌+◌, ◌<◌, ℤ, pos, negsuc, List, [], ◌∷◌, Option, none, some, ◌≡◌, refl, ◌⊎◌,
  get_elem?, length, replicate, Bytes, ap, not, sym, ◌==◌,
}
use spring.Shard.Ctrler.{
  n_shards, Config, CtrlerNet, QueryReply, QueryArgs, Groups, ok, err_wrong_group, err_no_key,
  query, is_query_refused,
}
use spring.Shard.Clerk.{
  GetReply, GetArgs, PutAppendReply, PutAppendArgs, Progress, has_returned, get, put_append, put_op,
  key2shard,
}
use spring.Shard.Asking.{query_lem, IsAnswer}
use spring.Shard.Getting.{get_lem, IsHeld, shards_bound}

-- Server 1 of the controller is the leader. All the shards are with group 7, whose servers are 3
-- and 4; the first call of all is answered with ErrWrongGroup, and each later one with the value 9.
abbrev everywhere : Groups
everywhere gid = some ((3 ∷ []) ∷ (4 ∷ []) ∷ [])

abbrev shared : Config
shared = record { num = pos 1; shards = replicate n_shards (pos 7); groups = everywhere }

abbrev query_reply : ℕ → QueryReply
query_reply n = record { wrong_leader = not (n == 1); err = ok; config = shared }

abbrev net : CtrlerNet ℕ ℕ
net = record {
  query_call = λ e a w. (w + 1, some (query_reply e));
  join_call = λ e a w. (w + 1, none);
  leave_call = λ e a w. (w + 1, none);
  move_call = λ e a w. (w + 1, none);
  sleep = λ w. w;
}

abbrev make_end : Bytes → ℕ
make_end [] = 0
make_end (x ∷ xs) = x

abbrev get_call : ℕ → GetArgs → ℕ → ℕ × Option GetReply
get_call e a zero = (1, some (record { err = err_wrong_group; value = [] }))
get_call e a (suc w) = (suc w + 1, some (record { err = ok; value = 9 ∷ [] }))

abbrev put_call : ℕ → PutAppendArgs → ℕ → ℕ × Option PutAppendReply
put_call e a w = (w + 1, some (record { err = ok }))

abbrev ctrlers : List ℕ
ctrlers = 0 ∷ 1 ∷ []

-- The first round leaves the group; the clerk asks both servers of the controller, and the second
-- round returns the value.
got :
    get net ctrlers 1 make_end get_call put_call (120 ∷ []) 2 shared 0
    ≡ some (4, has_returned (9 ∷ []))
unfolding get
got = refl

query_lem_example :
    (w' : ℕ) × (reply : QueryReply) × (query net ctrlers 1 (negsuc 0) 5 ≡ (w', some reply.config))
    × IsAnswer (λ s. net.query_call s (record { num = negsuc 0 })) is_query_refused ctrlers w' reply
query_lem_example = query_lem net ctrlers (negsuc 0) 1 1 refl (λ w. (query_reply 1, refl, refl)) 0 5

get_lem_example :
    (c : Config) × (gid : ℤ) × (servers : List Bytes) × (i : ℕ) × (s : Bytes) × (w0 : ℕ)
    × (reply : GetReply) × IsHeld net ctrlers 1 make_end get_call put_call shared c
    × (get_elem? c.shards (key2shard (120 ∷ [])) ≡ some gid)
    × (c.groups gid ≡ some servers)
    × (get_elem? servers i ≡ some s)
    × (get_call (make_end s) (record { key = 120 ∷ [] }) w0 ≡ (4, some reply))
    × ((reply.err ≡ ok) ⊎ (reply.err ≡ err_no_key))
    × (reply.value ≡ 9 ∷ [])
get_lem_example =
    get_lem net ctrlers 1 make_end get_call put_call (120 ∷ []) 2 shared 0 4 (9 ∷ []) got

lengths :
    (q : QueryReply) (e : ℕ) (a : QueryArgs) (w : ℕ)
    → (net.query_call e a w).1 ≡ some q
    → length q.config.shards ≡ n_shards
lengths q e a w h = let k : query_reply e ≡ q = cc h in ap (λ x. length x.config.shards) (sym k)

shards_bound_example :
    (key2shard (120 ∷ []) < n_shards)
    × ((out : ℕ × Progress Bytes) × (get net ctrlers 1 make_end get_call put_call
            (120 ∷ [])
            3
            shared
            0
          ≡ some out))
    × ((out : ℕ × Progress Unit) × (put_append net ctrlers 1 make_end get_call put_call
            (120 ∷ [])
            (5 ∷ [])
            put_op
            3
            shared
            0
          ≡ some out))
shards_bound_example =
    shards_bound net ctrlers 1 make_end get_call put_call lengths (120 ∷ []) (5 ∷ []) put_op 3
      shared 0 refl
