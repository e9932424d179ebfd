-- ===== src/Raft/Leader.antt =====
-- The leader in src/raft/raft.go: `HeartBeatLauncher`, the end of `SendHeartbeat` after its RPC has
-- returned, `Start`, and the end of `SendRequestVote`. `none` is a panic.
use spring.Common.{
  ℕ, zero, suc, ◌+◌, ◌-◌, ◌/◌, Bool, true, false, List, [], ◌∷◌, ◌++◌, Option, none, some, ltb, leb,
  ◌==◌, if◌then◌else◌, length, get_elem?, ◌>>=◌, ℤ, pos, negsuc, put, slice_from,
}
use spring.Raft.Types.{
  Raft, Gob, Log, Bytes, follower, SnapshotArgs, AppendEntriesArgs, AppendEntriesReply, Command,
  RequestVoteArgs, RequestVoteReply,
}
use spring.Raft.Index.{v2p_index, p2v_index, max_int, entry_at, is_leader}
use spring.Raft.Persist.{persist}
use spring.Raft.Vote.{others, vote_stale, add_vote, wins, become_leader, vote_refused}
use spring.Raft.Append.{first_of_term}

-- The slots that `HeartBeatLauncher` fills for a peer while it holds the lock. `prev_log_term` is
-- `none` for -1, the mark of a snapshot; `prev_log_index` is not read then.
pub record Slot : Type 0 where
  pub prev_log_index : ℕ
  pub prev_log_term : Option ℕ
  pub entries : List Log

-- With the slice index of `NextIndex`: no entry stands before index 0 of the slice.
unfoldable pub slot_at : Raft → ℕ → ℤ → Option Slot
slot_at rf next (negsuc i) =
    some (record { prev_log_index = next - 1; prev_log_term = none; entries = [] })
slot_at rf next (pos zero) =
    some (record { prev_log_index = next - 1; prev_log_term = none; entries = [] })
slot_at rf next (pos (suc i)) = do
  prev ← get_elem? rf.log i
  let term = some prev.log_term
  if ltb next rf.log_length
      then (do
        entries ← slice_from rf.log (suc i)
        some (record { prev_log_index = next - 1; prev_log_term = term; entries = entries }))
      else some (record { prev_log_index = next - 1; prev_log_term = term; entries = [] })

unfoldable pub slot : Raft → ℕ → Option Slot
unfolding slot_at
slot rf i = do next ← get_elem? rf.next_index i; slot_at rf next (v2p_index rf next)

abbrev pub slots : Raft → List ℕ → Option (List (ℕ × Slot))
slots rf [] = some []
slots rf (i ∷ is) = do s ← slot rf i; rest ← slots rf is; some ((i, s) ∷ rest)

-- What is sent to a peer.
pub data Message : Type 0 where
  append_entries : AppendEntriesArgs → Message
  send_snapshot : SnapshotArgs → Message

-- The message made of a slot. `rf` is the peer when the lock was held; `snapdata` is read after
-- it has been released.
unfoldable pub message : Raft → Bytes → Slot → Message
message rf snapdata s = elim s.prev_log_term [
  | none ↦ send_snapshot (record {
    term = rf.current_term;
    leader_id = rf.me;
    last_included_index = rf.last_included_index;
    last_included_term = rf.last_included_term;
    snapdata = snapdata;
  })
  | some term ↦ append_entries (record {
    term = rf.current_term;
    leader_id = rf.me;
    prev_log_index = s.prev_log_index;
    prev_log_term = term;
    entries = s.entries;
    leader_commit = rf.commit_index;
  })
]

-- The peer with its timer reset, and the slots for the others.
unfoldable pub heartbeat_launcher : ℕ → Raft → Option (Raft × List (ℕ × Slot))
unfolding slot
heartbeat_launcher now rf = do
  let timed = record rf { last_rpc = now }
  filled ← slots timed (others timed)
  some (timed, filled)

-- One round of `HeartBeatGoroutine`.
unfoldable pub heartbeat_tick : ℕ → Raft → Option (Raft × List (ℕ × Slot))
unfolding heartbeat_launcher
heartbeat_tick now rf = if is_leader rf.state then heartbeat_launcher now rf else some (rf, [])

-- `rf.MatchIndex[j] >= N && rf.Log[rf.V2PIndex(N)].LogTerm == rf.CurrentTerm`
unfoldable pub replicated : Raft → ℕ → Option ℕ → Option Bool
replicated rf n none = some false
replicated rf n (some m) =
    if leb n m then (do e ← entry_at rf n; some (e.log_term == rf.current_term)) else some false

-- The count of the peers that hold entry `n`, over `MatchIndex` from index `j` on.
unfoldable pub count_from : Raft → ℕ → ℕ → List (Option ℕ) → Option ℕ
count_from rf n j [] = some 0
count_from rf n j (m ∷ ms) = do
  holds ← if j == rf.me then some true else replicated rf n m
  rest ← count_from rf n (j + 1) ms
  some (if holds then suc rest else rest)

-- The loop `for N := ...; N > rf.CommitIndex; N--`: the first N that a majority holds.
unfoldable pub commit_scan : Raft → ℕ → Option (Option ℕ)
commit_scan rf zero = some none
commit_scan rf (suc n) =
    let lower = commit_scan rf n in
    if ltb rf.commit_index (suc n)
    then (do
      count ← count_from rf (suc n) 0 rf.match_index
      if ltb (rf.peers / 2) count then some (some (suc n)) else lower)
    else some none

-- The peer after a reply, a snapshot to send, and whether `ApplyCond` is signalled.
pub record Handled : Type 0 where
  pub peer : Raft
  pub to_send : Option SnapshotArgs
  pub broadcast : Bool

abbrev pub quiet : Raft → Handled
quiet rf = record { peer = rf; to_send = none; broadcast = false }

abbrev pub commit_to : Raft → Option ℕ → Handled
commit_to rf none = quiet rf
commit_to rf (some n) = record {
  peer = record rf {
    commit_index = n;
    last_applied = max_int rf.last_applied rf.last_included_index;
  };
  to_send = none;
  broadcast = true;
}

-- `if len(args.Entries) != 0` and the loop under it.
unfoldable pub advance_commit : AppendEntriesArgs → Raft → Option Handled
advance_commit args rf =
    if length args.entries == 0
    then some (quiet rf)
    else (do found ← commit_scan rf (rf.log_length - 1); some (commit_to rf found))

unfoldable pub replicated_to : ℕ → AppendEntriesArgs → Raft → Option Handled
replicated_to to args rf = do
  let last = args.prev_log_index + length args.entries
  matched ← put rf.match_index to (some last)
  next ← put rf.next_index to (last + 1)
  advance_commit args (record rf { match_index = matched; next_index = next })

-- The new `NextIndex` after a failed consistency check.
abbrev found_or : Raft → ℕ → Option ℕ → ℕ
found_or rf x_index none = x_index
found_or rf x_index (some j) = p2v_index rf j + 1

abbrev back_to : Raft → AppendEntriesReply → Option ℕ → ℕ
back_to rf reply none = reply.x_len
back_to rf reply (some term) = found_or rf reply.x_index (first_of_term term rf.log)

unfoldable pub backup : Raft → AppendEntriesReply → ℕ
backup rf reply = back_to rf reply reply.x_term

abbrev pub own_snapshot : Raft → SnapshotArgs
own_snapshot rf = record {
  term = rf.current_term;
  leader_id = rf.me;
  last_included_index = rf.last_included_index;
  last_included_term = rf.last_included_term;
  snapdata = rf.snapshot_data;
}

unfoldable pub back_up : ℕ → AppendEntriesReply → Raft → Option Handled
back_up to reply rf = do
  next ← put rf.next_index to (backup rf reply)
  let rf' = record rf { next_index = next }
  some (
      if leb (backup rf reply) rf.last_included_index
      then record { peer = rf'; to_send = some (own_snapshot rf'); broadcast = false }
      else quiet rf')

abbrev pub appended : Command → Raft → Raft
appended command rf = record rf {
  log = rf.log ++ (record { log_term = rf.current_term; command = command } ∷ []);
  log_length = rf.log_length + 1;
}

module _ (g : Gob) where
  abbrev pub newer : ℕ → Raft → Raft
  newer term rf =
      if ltb rf.current_term term then persist g (record rf { current_term = term }) else rf

  -- `SendHeartbeat`, from its reply on.
  unfoldable pub send_heartbeat : ℕ → AppendEntriesArgs → AppendEntriesReply → Raft → Option Handled
  send_heartbeat to args reply rf =
      if rf.current_term == args.term
      then (if ltb args.term reply.term
          then some (quiet (record (newer reply.term rf) { state = follower }))
          else if reply.success
          then replicated_to to args rf
          else back_up to reply rf)
      else some (quiet rf)

  -- `Start`; `none` is the result (-1, -1, false), and `some` holds the index and the term.
  unfoldable pub start : Command → Raft → Raft × Option (ℕ × ℕ)
  start command rf =
      if is_leader rf.state
      then (let rf' = persist g (appended command rf) in
          (rf', some (rf'.log_length - 1, rf'.current_term)))
      else (rf, none)

  -- `SendRequestVote` from its reply on, where no other step comes between its critical sections:
  -- the peer, the counter of votes, and the slots of the first heartbeat.
  unfoldable pub send_request_vote :
      ℕ → RequestVoteArgs → RequestVoteReply → ℕ → Raft → Option (Raft × ℕ × List (ℕ × Slot))
  unfolding vote_stale wins become_leader vote_refused heartbeat_launcher
  send_request_vote now args reply vote rf =
      let (rf', stale) = vote_stale args rf in
      if stale
      then some (rf', vote, [])
      else if reply.vote_granted
      then (if wins (add_vote vote) rf'
          then (do
            (leading, filled) ← heartbeat_launcher now (become_leader rf')
            some (vote_refused g reply leading, add_vote vote, filled))
          else some (vote_refused g reply rf', add_vote vote, []))
      else some (vote_refused g reply rf', vote, [])
