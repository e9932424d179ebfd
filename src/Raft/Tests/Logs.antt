-- ===== src/Raft/Tests/Logs.antt =====
-- A follower of src/raft/raft.go and the messages that it receives, at small inputs.
use spring.Common.{
  ℕ, ◌<◌, ◌≤◌, ◌≡◌, ◌↔◌, refl, Option, none, some, [], ◌∷◌, arith, true, false, get_elem?, ltb, leb,
  if◌then◌else◌, ◌||◌, max,
}
use spring.Raft.Types.{Raft, Log, AppendEntriesArgs, SnapshotArgs, snapshot_msg}
use spring.Raft.Index.{entry_at, max_int}
use spring.Raft.Persist.{boot, make_persister, persist}
use spring.Raft.Append.{Outcome, heartbeat_handler, blank_reply, check_entry, accept, is_nil}
use spring.Raft.Snapshot.{install_snapshot}
use spring.Raft.Receive.Accepted.{heartbeat_appends}
use spring.Raft.Receive.Refused.{heartbeat_panics_iff, heartbeat_success_iff, Agrees}
use spring.Raft.Receive.Conflict.{heartbeat_conflict, Reports}
use spring.Raft.Compact.{install_snapshot_lem, installed_entry}
use spring.Raft.Tests.{plain_gob}

abbrev pub entry : ℕ → ℕ → Log
entry t c = record { log_term = t; command = c }

abbrev pub behind : Raft
behind = record (boot 3 1 make_persister) {
  current_term = 2;
  log = entry 0 0 ∷ entry 1 10 ∷ entry 1 11 ∷ [];
  log_length = 3;
}

-- The same peer after a snapshot at index 1.
abbrev compacted : Raft
compacted = record behind {
  log = entry 1 10 ∷ entry 1 11 ∷ [];
  last_included_index = 1;
  last_included_term = 1;
}

abbrev pub update : ℕ → ℕ → AppendEntriesArgs
update index term = record {
  term = 3;
  leader_id = 0;
  prev_log_index = index;
  prev_log_term = term;
  entries = entry 2 12 ∷ entry 3 13 ∷ [];
  leader_commit = 2;
}

abbrev pub or_blank : Option Outcome → Outcome
or_blank none = record { peer = behind; reply = blank_reply 0; broadcast = false }
or_blank (some out) = out

abbrev pub updated : Outcome
updated = or_blank (heartbeat_handler plain_gob 7 (update 1 1) behind)

pub update_runs : heartbeat_handler plain_gob 7 (update 1 1) behind ≡ some updated
unfolding heartbeat_handler check_entry accept persist
update_runs = refl

pub update_succeeds : updated.reply.success ≡ true
unfolding heartbeat_handler check_entry accept persist
update_succeeds = refl

heartbeat_appends_example : entry_at updated.peer 3 ≡ (
    if leb 3 1 || is_nil (update 1 1).entries
    then entry_at behind 3
    else get_elem? (update 1 1).entries 1)
heartbeat_appends_example =
    heartbeat_appends plain_gob 7 (update 1 1) behind (ground arith) update_runs update_succeeds 3

heartbeat_panics_iff_example :
    (heartbeat_handler plain_gob 7 (update 0 0) compacted ≡ none) ↔ ((2 ≤ 3) × (0 < 1))
heartbeat_panics_iff_example =
    heartbeat_panics_iff plain_gob 7 (update 0 0) compacted (ground arith)

heartbeat_success_iff_example : (updated.reply.success ≡ true) ↔ Agrees (update 1 1) behind
heartbeat_success_iff_example =
    heartbeat_success_iff plain_gob 7 (update 1 1) behind (ground arith) update_runs

heartbeat_conflict_example :
    (out : Outcome) × (heartbeat_handler plain_gob 7 (update 2 2) behind ≡ some out)
    × Reports behind 2 1 out.reply
    × ((k : ℕ) → entry_at out.peer k ≡ (if ltb k (max 2 1) then entry_at behind k else none))
heartbeat_conflict_example =
    heartbeat_conflict plain_gob 7 (update 2 2) behind (ground arith) (entry 1 11) (omega arith)
      (unfold entry_at in refl) (omega arith)

-- A snapshot at an index that the peer has with another term.
abbrev image : SnapshotArgs
image = record {
  term = 3;
  leader_id = 0;
  last_included_index = 2;
  last_included_term = 2;
  snapdata = 8 ∷ [];
}

install_snapshot_lem_example :
    (rf : Raft) × (install_snapshot plain_gob 7 image behind
      ≡ some (rf, record { term = 2 }, snapshot_msg (8 ∷ []) 2 2 ∷ []))
    × ((k : ℕ) → entry_at rf k ≡ installed_entry image behind k)
    × (rf.last_included_index ≡ 2)
    × (rf.last_included_term ≡ 2)
    × (rf.snapshot_data ≡ 8 ∷ [])
    × (rf.current_term ≡ 3)
    × (rf.commit_index ≡ max_int 0 2)
    × (rf.last_applied ≡ max_int 0 2)
install_snapshot_lem_example =
    install_snapshot_lem plain_gob 7 image behind (ground arith) (omega arith)
