-- ===== src/Shard/Ctrler.antt =====
-- src/shardctrler/common.go, and the clerk of src/shardctrler/client.go. A call of labrpc takes the
-- world, in which all else runs, to a new one, with a reply where it returns true; a sleep takes it
-- to another. A loop without end has a number of rounds, and no reply when they are used up.
use spring.Common.{ℕ, zero, suc, ℤ, Bool, List, [], ◌∷◌, Option, none, some, Bytes, if◌then◌else◌}

abbrev pub n_shards : ℕ
n_shards = 10

abbrev pub Groups : Type 0
Groups = ℤ → Option (List Bytes)

-- `Shards` is a list, of `NShards` groups where the code has an array of that length.
pub record Config : Type 0 where
  pub num : ℤ
  pub shards : List ℤ
  pub groups : Groups

-- `Err` of both packages, with the constants of src/shardkv/common.go.
pub data Err : Type 0 where
  ok : Err
  err_no_key : Err
  err_wrong_group : Err
  err_wrong_leader : Err
  other_err : Bytes → Err

pub record JoinArgs : Type 0 where
  pub servers : Groups

pub record LeaveArgs : Type 0 where
  pub gids : List ℤ

pub record MoveArgs : Type 0 where
  pub shard : ℤ
  pub gid : ℤ

pub record QueryArgs : Type 0 where
  pub num : ℤ

-- `JoinReply`, `LeaveReply` and `MoveReply`, which have the same fields.
pub record ChangeReply : Type 0 where
  pub wrong_leader : Bool
  pub err : Err

pub record QueryReply : Type 0 where
  pub wrong_leader : Bool
  pub err : Err
  pub config : Config

-- The methods of a server of the controller, as a clerk calls them at an end.
pub record CtrlerNet (W E : Type 0) : Type 0 where
  pub query_call : E → QueryArgs → W → W × Option QueryReply
  pub join_call : E → JoinArgs → W → W × Option ChangeReply
  pub leave_call : E → LeaveArgs → W → W × Option ChangeReply
  pub move_call : E → MoveArgs → W → W × Option ChangeReply
  pub sleep : W → W

-- `for _, srv := range ck.servers`: the reply of the first server that is the leader.
unfoldable pub ask_all :
    {W E R : Type 0} → (E → W → W × Option R) → (R → Bool) → List E → W → W × Option R
ask_all call wrong [] w = (w, none)
ask_all call wrong (srv ∷ srvs) w =
    let tried = call srv w in
    let rest = ask_all call wrong srvs tried.0 in
    elim tried.1 [ none ↦ rest | some reply ↦ if wrong reply then rest else (tried.0, some reply) ]

-- `for { ... time.Sleep(100 * time.Millisecond) }`
unfoldable pub keep_asking :
    {W E R : Type 0} → (E → W → W × Option R) → (R → Bool) → (W → W) → List E → ℕ → W → W × Option R
unfolding ask_all
keep_asking call wrong sleep srvs zero w = (w, none)
keep_asking call wrong sleep srvs (suc n) w =
    let round = ask_all call wrong srvs w in
    let rest = keep_asking call wrong sleep srvs n (sleep round.0) in
    elim round.1 [ none ↦ rest | some reply ↦ (round.0, some reply) ]

abbrev pub is_change_refused : ChangeReply → Bool
is_change_refused reply = reply.wrong_leader

abbrev pub is_query_refused : QueryReply → Bool
is_query_refused reply = reply.wrong_leader

-- The clerk of `servers`, with the bound on the rounds of a loop.
module _ {W E : Type 0} (net : CtrlerNet W E) (servers : List E) (rounds : ℕ) where
  -- The configuration that `Query` returns.
  unfoldable pub query : ℤ → W → W × Option Config
  unfolding keep_asking
  query num w =
      let asked =
        keep_asking (λ srv. net.query_call srv (record { num = num })) is_query_refused net.sleep
          servers rounds w in
      (asked.0, elim asked.1 [ none ↦ none | some reply ↦ some reply.config ])

  unfoldable pub join : Groups → W → W × Option ChangeReply
  unfolding keep_asking
  join groups w =
      keep_asking (λ srv. net.join_call srv (record { servers = groups })) is_change_refused
        net.sleep servers rounds w

  unfoldable pub leave : List ℤ → W → W × Option ChangeReply
  unfolding keep_asking
  leave gids w =
      keep_asking (λ srv. net.leave_call srv (record { gids = gids })) is_change_refused net.sleep
        servers rounds w

  unfoldable pub move : ℤ → ℤ → W → W × Option ChangeReply
  unfolding keep_asking
  move shard gid w =
      keep_asking (λ srv. net.move_call srv (record { shard = shard; gid = gid })) is_change_refused
        net.sleep servers rounds w
