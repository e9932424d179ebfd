-- ===== src/Raft/Append.antt =====
-- `HeartbeatHandler` of src/raft/raft.go: a follower receives entries or a heartbeat. `none` is
-- a panic: an index outside the slice. The reply's fields start at Go's zero values.
use spring.Common.{
  ℕ, suc, ◌-◌, Bool, true, false, List, [], ◌∷◌, ◌++◌, Option, none, some, ltb, leb, ◌==◌,
  if◌then◌else◌, length, set, get_elem?, take, ◌>>=◌, ℤ, pos, negsuc,
}
use spring.Raft.Types.{Raft, Gob, Log, follower, AppendEntriesArgs, AppendEntriesReply}
use spring.Raft.Index.{v2p_index, p2v_index, min_int, max_int}
use spring.Raft.Persist.{persist}

-- The peer, the reply, and whether `ApplyCond` is signalled.
pub record Outcome : Type 0 where
  pub peer : Raft
  pub reply : AppendEntriesReply
  pub broadcast : Bool

abbrev pub blank_reply : ℕ → AppendEntriesReply
blank_reply term = record { term = term; success = false; x_term = some 0; x_len = 0; x_index = 0 }

-- The index of the first entry of a term, for the loops that search the slice from its start.
unfoldable pub first_of_term : ℕ → List Log → Option ℕ
first_of_term term [] = none
first_of_term term (e ∷ es) =
    let rest = first_of_term term es in
    if e.log_term == term then some 0 else elim rest [ none ↦ none | some k ↦ some (suc k) ]

-- `reply.XIndex`, which stays 0 if the loop finds nothing.
abbrev pub x_index_of : Raft → Option ℕ → ℕ
x_index_of rf none = 0
x_index_of rf (some k) = p2v_index rf k

-- Where the checked entry is the first of the slice, its term is the snapshot's.
abbrev pub checked_term : Raft → ℕ → Log → ℕ
checked_term rf i e = if i == 0 then rf.last_included_term else e.log_term

abbrev pub with_checked : Raft → ℕ → Log → Raft
with_checked rf i e =
    if i == 0
    then record rf { log = set rf.log 0 (record e { log_term = rf.last_included_term }) }
    else rf

-- How many entries stay after a conflict at slice index `i`.
abbrev pub kept : ℕ → ℕ
kept i = if i == 0 then 1 else i

abbrev pub truncate : ℕ → Raft → Raft
truncate i rf =
    let log' = take (kept i) rf.log in
    record rf { log = log'; log_length = p2v_index rf (length log') }

abbrev pub extend : ℕ → List Log → Raft → Raft
extend i entries rf =
    let log' = take (suc i) rf.log ++ entries in
    record rf { log = log'; log_length = p2v_index rf (length log') }

abbrev pub is_nil : List Log → Bool
is_nil es = length es == 0

-- The last part of the handler: follow the leader's commit index.
abbrev pub follow_commit : ℕ → Raft → AppendEntriesReply → Outcome
follow_commit leader_commit rf reply =
    if ltb rf.commit_index leader_commit
    then record {
      peer = record rf {
        commit_index = min_int leader_commit (rf.log_length - 1);
        last_applied = max_int rf.last_applied rf.last_included_index;
      };
      reply = reply;
      broadcast = true;
    }
    else record { peer = rf; reply = reply; broadcast = false }

-- 2a: the log is too short for the check.
abbrev pub missing : Raft → AppendEntriesReply → Outcome
missing rf reply = record {
  peer = rf;
  reply = record reply { x_term = none; x_len = rf.log_length; success = false };
  broadcast = false;
}

module _ (g : Gob) where
  abbrev pub raise_term : ℕ → Raft → Raft
  raise_term term rf =
      if ltb rf.current_term term
      then persist g (record rf { current_term = term; state = follower })
      else rf

  -- 2b: the terms differ.
  unfoldable pub conflict : ℕ → ℕ → Raft → AppendEntriesReply → Outcome
  conflict i term rf reply = record {
    peer = persist g (truncate i rf);
    reply = record reply {
      success = false;
      x_term = some term;
      x_index = x_index_of rf (first_of_term term (take (suc i) rf.log));
    };
    broadcast = false;
  }

  -- The check has passed.
  unfoldable pub accept : ℕ → AppendEntriesArgs → Raft → AppendEntriesReply → Outcome
  accept i args rf reply =
      let rf' = if is_nil args.entries then rf else persist g (extend i args.entries rf) in
      follow_commit args.leader_commit rf' (record reply { success = true })

  -- From the consistency check on, with the slice index of the checked entry.
  unfoldable pub check_entry : AppendEntriesArgs → Raft → AppendEntriesReply → ℤ → Option Outcome
  check_entry args rf reply (negsuc i) = none
  check_entry args rf reply (pos i) = do
    e ← get_elem? rf.log i
    let term = checked_term rf i e
    let rf' = with_checked rf i e
    if args.prev_log_term == term
        then some (accept i args rf' reply)
        else some (conflict i term rf' reply)

  unfoldable pub heartbeat_handler : ℕ → AppendEntriesArgs → Raft → Option Outcome
  heartbeat_handler now args rf =
      let reply = blank_reply rf.current_term in
      let entered = raise_term args.term rf in
      if ltb args.term entered.current_term
      then some (record { peer = entered; reply = reply; broadcast = false })
      else let timed = record entered { last_rpc = now } in
        if leb timed.log_length args.prev_log_index
        then some (missing timed reply)
        else check_entry args timed reply (v2p_index timed args.prev_log_index)
