-- ===== src/Raft/Valid/Steps.antt =====
-- Every operation of src/raft/raft.go keeps a peer well formed, whatever it receives.
use spring.Common.{
  length-append, ℕ, zero, suc, ◌+◌, ◌≡◌, Option, some, List, [], ◌∷◌, length, take, set, get_elem?,
  arith, ℤ, pos, negsuc, if◌then◌else◌, ◌==◌, inl, inr, Option-cases,
}
use spring.Raft.Types.{
  Raft, Log, Gob, RequestVoteArgs, RequestVoteReply, AppendEntriesArgs, AppendEntriesReply,
  SnapshotArgs, SnapshotReply, Bytes, ApplyMsg, Command,
}
use spring.Raft.Index.{v2p_index}
use spring.Raft.Persist.{persist}
use spring.Raft.Vote.{request_vote_handler, enter_term, election_tick}
use spring.Raft.Append.{
  Outcome, conflict, accept, check_entry, heartbeat_handler, blank_reply, kept, truncate, extend,
  raise_term, missing,
}
use spring.Raft.Snapshot.{
  snapshot, snapshot_at, install_snapshot, has_entry, install, send_snapshot,
}
use spring.Raft.Leader.{start, Handled, send_heartbeat, replicated_to, advance_commit, back_up}
use spring.Raft.Valid.{IsValid}
use spring.Raft.Valid.Slices.{first_term-take, first_term-append, first_term-drop, checked-valid}

module _ (g : Gob) where
  pub persist-IsValid : {rf : Raft} → IsValid rf → IsValid (persist g rf)
  unfolding persist
  persist-IsValid v = ground arith

  pub request_vote_handler-IsValid :
      (now : ℕ) (args : RequestVoteArgs) {rf rf' : Raft} {reply : RequestVoteReply}
      → IsValid rf
      → request_vote_handler g now args rf ≡ some (rf', reply)
      → IsValid rf'
  unfolding request_vote_handler persist
  request_vote_handler-IsValid now args v h = ground arith

  pub election_tick-IsValid :
      (now ms : ℕ) {rf rf' : Raft} {sent : Option (RequestVoteArgs × List ℕ)}
      → IsValid rf
      → election_tick g now ms rf ≡ some (rf', sent)
      → IsValid rf'
  unfolding election_tick persist
  election_tick-IsValid now ms v h = ground arith

  truncate-IsValid : (i : ℕ) {rf : Raft} → IsValid rf → IsValid (truncate i rf)
  truncate-IsValid zero {rf} v = ground (arith, first_term-take 0 rf.log)
  truncate-IsValid (suc i) {rf} v = ground (arith, first_term-take i rf.log)

  extend-IsValid :
      (i : ℕ) (entries : List Log) {rf : Raft} → IsValid rf → IsValid (extend i entries rf)
  extend-IsValid i entries {rf} v =
      ground (arith, first_term-take i rf.log, first_term-append (take (suc i) rf.log) entries)

  pub accept-IsValid :
      (i : ℕ) (args : AppendEntriesArgs) (rf : Raft) (reply : AppendEntriesReply)
      → IsValid rf
      → IsValid (accept g i args rf reply).peer
  unfolding accept persist
  accept-IsValid i args rf reply v = ground (arith, extend-IsValid i args.entries v)

  conflict-IsValid :
      (i term : ℕ) (rf : Raft) (reply : AppendEntriesReply)
      → IsValid rf
      → IsValid (conflict g i term rf reply).peer
  unfolding conflict persist
  conflict-IsValid i term rf reply v = ground (arith, truncate-IsValid i v)

  -- In a well-formed peer the check compares the leader's term with that of the entry.
  pub check_entry-eq :
      (args : AppendEntriesArgs) (rf : Raft) (reply : AppendEntriesReply) (i : ℕ) (e : Log)
      → IsValid rf
      → get_elem? rf.log i ≡ some e
      → check_entry g args rf reply (pos i) ≡ (
          if args.prev_log_term == e.log_term
          then some (accept g i args rf reply)
          else some (conflict g i e.log_term rf reply))
  unfolding check_entry
  check_entry-eq args rf reply i e v h =
      let (same_term, same) = checked-valid rf i e v h in rw (h, same_term, same)

  pub check_entry-IsValid :
      (args : AppendEntriesArgs) (rf : Raft) (reply : AppendEntriesReply) (k : ℤ) {out : Outcome}
      → IsValid rf
      → check_entry g args rf reply k ≡ some out
      → IsValid out.peer
  check_entry-IsValid args rf reply (negsuc i) v h = absurd (unfold check_entry in cc h)
  check_entry-IsValid args rf reply (pos i) {out} v h = elim (Option-cases (get_elem? rf.log i)) [
    | inl missing ↦ absurd (unfold check_entry in cc (h, missing))
    | inr (e, here) ↦ ground (
      arith,
      check_entry-eq args rf reply i e v here,
      accept-IsValid i args rf reply v,
      conflict-IsValid i e.log_term rf reply v,
    )
  ]

  raise_term-IsValid : (term : ℕ) {rf : Raft} → IsValid rf → IsValid (raise_term g term rf)
  unfolding persist
  raise_term-IsValid term v = ground arith

  pub raise_term-timed :
      (now term : ℕ) {rf : Raft}
      → IsValid rf
      → IsValid (record (raise_term g term rf) { last_rpc = now })
  unfolding persist
  raise_term-timed now term v = ground arith

  -- `HeartbeatHandler` keeps a peer well formed.
  pub heartbeat_handler-IsValid :
      (now : ℕ) (args : AppendEntriesArgs) {rf : Raft} {out : Outcome}
      → IsValid rf
      → heartbeat_handler g now args rf ≡ some out
      → IsValid out.peer
  unfolding heartbeat_handler
  heartbeat_handler-IsValid now args {rf} {out} v h =
      let timed = record (raise_term g args.term rf) { last_rpc = now } in
      ground (
        arith,
        raise_term-IsValid args.term v,
        raise_term-timed now args.term v,
        check_entry-IsValid args timed (blank_reply rf.current_term)
            (v2p_index timed args.prev_log_index) {out = out},
      )

  has_entry-IsValid :
      (args : SnapshotArgs) (rf : Raft) (k : ℤ) {kept : Option ℕ}
      → has_entry args rf k ≡ some kept
      → IsValid (install args rf kept)
  unfolding has_entry
  has_entry-IsValid args rf (negsuc i) h = ground arith
  has_entry-IsValid args rf (pos i) h = elim (Option-cases (get_elem? rf.log i)) [
    | inl missing ↦ ground arith
    | inr (e, here) ↦ ground (arith, first_term-drop i rf.log e here)
  ]

  -- `InstallSnapshot` keeps a peer well formed.
  pub install_snapshot-IsValid :
      (now : ℕ) (args : SnapshotArgs) {rf rf' : Raft} {reply : SnapshotReply} {msgs : List ApplyMsg}
      → IsValid rf
      → install_snapshot g now args rf ≡ some (rf', reply, msgs)
      → IsValid rf'
  unfolding install_snapshot persist
  install_snapshot-IsValid now args {rf} v h =
      let timed = record (enter_term args.term rf) { last_rpc = now } in
      elim (Option-cases (has_entry args timed (v2p_index timed args.last_included_index))) [
        | inl panic ↦ ground arith
        | inr (kept, e) ↦
            ground
              (arith, has_entry-IsValid args timed (v2p_index timed args.last_included_index) e)
      ]

  snapshot_at-IsValid :
      (index : ℕ) (data' : Bytes) (rf : Raft) (k : ℤ) {rf' : Raft}
      → IsValid rf
      → snapshot_at g index data' rf k ≡ some rf'
      → IsValid rf'
  unfolding persist
  snapshot_at-IsValid index data' rf (negsuc i) v h = absurd (cc h)
  snapshot_at-IsValid index data' rf (pos i) v h = elim (Option-cases (get_elem? rf.log i)) [
    | inl missing ↦ ground arith
    | inr (e, here) ↦ ground (arith, first_term-drop i rf.log e here)
  ]

  -- `Snapshot` keeps a peer well formed.
  pub snapshot-IsValid :
      (index : ℕ) (data' : Bytes) {rf rf' : Raft}
      → IsValid rf
      → snapshot g index data' rf ≡ some rf'
      → IsValid rf'
  unfolding snapshot
  snapshot-IsValid index data' {rf} v h =
      snapshot_at-IsValid index data' rf (v2p_index rf index) v h

  pub send_snapshot-IsValid :
      (to : ℕ) (args : SnapshotArgs) (reply : SnapshotReply) {rf rf' : Raft}
      → IsValid rf
      → send_snapshot g to args reply rf ≡ some rf'
      → IsValid rf'
  unfolding send_snapshot persist
  send_snapshot-IsValid to args reply v h = ground arith

  pub start-IsValid : (command : Command) {rf : Raft} → IsValid rf → IsValid (start g command rf).0
  unfolding start persist
  start-IsValid command {rf} v = ground (
    arith,
    first_term-append rf.log (record { log_term = rf.current_term; command = command } ∷ []),
    length-append rf.log (record { log_term = rf.current_term; command = command } ∷ []),
  )

  back_up-IsValid :
      (to : ℕ) (reply : AppendEntriesReply) (rf : Raft) {out : Handled}
      → IsValid rf
      → back_up to reply rf ≡ some out
      → IsValid out.peer
  unfolding back_up
  back_up-IsValid to reply rf v h = ground arith

  advance_commit-IsValid :
      (args : AppendEntriesArgs) (rf : Raft) {out : Handled}
      → IsValid rf
      → advance_commit args rf ≡ some out
      → IsValid out.peer
  unfolding advance_commit
  advance_commit-IsValid args rf v h = ground arith

  replicated_to-IsValid :
      (to : ℕ) (args : AppendEntriesArgs) (rf : Raft) {out : Handled}
      → IsValid rf
      → replicated_to to args rf ≡ some out
      → IsValid out.peer
  unfolding replicated_to
  replicated_to-IsValid to args rf {out} v h =
      let last = args.prev_log_index + length args.entries in
      let rf' = record rf {
        match_index = set rf.match_index to (some last);
        next_index = set rf.next_index to (last + 1);
      } in
      ground (arith, advance_commit-IsValid args rf' {out = out})

  pub send_heartbeat-IsValid :
      (to : ℕ) (args : AppendEntriesArgs) (reply : AppendEntriesReply) {rf : Raft} {out : Handled}
      → IsValid rf
      → send_heartbeat g to args reply rf ≡ some out
      → IsValid out.peer
  unfolding send_heartbeat persist
  send_heartbeat-IsValid to args reply {rf} {out} v h =
      ground (
        arith,
        back_up-IsValid to reply rf {out = out},
        replicated_to-IsValid to args rf {out = out},
      )
