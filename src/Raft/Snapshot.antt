-- ===== src/Raft/Snapshot.antt =====
-- Log compaction in src/raft/raft.go: `Snapshot`, `InstallSnapshot`, and the end of
-- `SendSnapshot`, after its RPC has returned. `none` is a panic.
use spring.Common.{
  ℕ, ◌+◌, List, [], ◌∷◌, Option, none, some, ltb, ◌==◌, if◌then◌else◌, length, get_elem?, drop,
  ◌>>=◌, ℤ, pos, negsuc, put,
}
use spring.Raft.Types.{
  Raft, Gob, Log, Bytes, follower, SnapshotArgs, SnapshotReply, ApplyMsg, snapshot_msg,
}
use spring.Raft.Index.{v2p_index, max_int}
use spring.Raft.Persist.{persist}
use spring.Raft.Vote.{enter_term}

-- The peer cut at a slice index whose entry is there.
abbrev pub cut : ℕ → Bytes → ℕ → Log → Raft → Raft
cut index snapshot i e rf =
    let log' = drop i rf.log in
    record rf {
      last_included_term = e.log_term;
      log = log';
      last_included_index = index;
      log_length = length log' + index;
      snapshot_data = snapshot;
    }

-- Whether a follower keeps what follows the snapshot: the slice index of the snapshot's last
-- entry, if the log has it.
unfoldable pub has_entry : SnapshotArgs → Raft → ℤ → Option (Option ℕ)
has_entry args rf (negsuc i) = some none
has_entry args rf (pos i) =
    if ltb args.last_included_index rf.log_length
    then (do
      e ← get_elem? rf.log i
      some (if e.log_term == args.last_included_term then some i else none))
    else some none

-- The log after the snapshot is installed.
abbrev pub keep_from : SnapshotArgs → Raft → Option ℕ → List Log
keep_from args rf none = record { log_term = args.last_included_term; command = 0 } ∷ []
keep_from args rf (some i) = drop i rf.log

-- Steps 3 and 4, once it is known what is kept.
abbrev pub install : SnapshotArgs → Raft → Option ℕ → Raft
install args rf kept =
    let log' = keep_from args rf kept in
    record rf {
      log = log';
      last_included_index = args.last_included_index;
      last_included_term = args.last_included_term;
      last_applied = max_int rf.last_applied args.last_included_index;
      commit_index = max_int rf.commit_index args.last_included_index;
      snapshot_data = args.snapdata;
      log_length = length log' + args.last_included_index;
    }

module _ (g : Gob) where
  abbrev pub snapshot_at : ℕ → Bytes → Raft → ℤ → Option Raft
  snapshot_at index snapshot rf (negsuc i) = none
  snapshot_at index snapshot rf (pos i) = do
    e ← get_elem? rf.log i
    some (persist g (cut index snapshot i e rf))

  unfoldable pub snapshot : ℕ → Bytes → Raft → Option Raft
  snapshot index data' rf = snapshot_at index data' rf (v2p_index rf index)

  unfoldable pub install_snapshot :
      ℕ → SnapshotArgs → Raft → Option (Raft × SnapshotReply × List ApplyMsg)
  install_snapshot now args rf =
      let reply : SnapshotReply = record { term = rf.current_term } in
      if ltb args.term rf.current_term then some (rf, reply, []) else (do
        let timed = record (enter_term args.term rf) { last_rpc = now }
        kept ← has_entry args timed (v2p_index timed args.last_included_index)
        some (
          persist g (install args timed kept),
          reply,
          snapshot_msg args.snapdata args.last_included_term args.last_included_index ∷ [],
        ))

  abbrev pub newer_term : ℕ → Raft → Raft
  newer_term term rf =
      if ltb rf.current_term term
      then persist g (record rf { state = follower; current_term = term })
      else rf

  -- `SendSnapshot`, from its reply on.
  unfoldable pub send_snapshot : ℕ → SnapshotArgs → SnapshotReply → Raft → Option Raft
  send_snapshot to args reply rf =
      if rf.current_term == args.term
      then (do
        let rf' = newer_term reply.term rf
        next ← put rf'.next_index to (rf'.last_included_index + 1)
        some (record rf' { next_index = next }))
      else some rf
