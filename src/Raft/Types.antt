-- ===== src/Raft/Types.antt =====
-- The data of src/raft/raft.go: the peer's state, the log entries, and the RPC messages.
-- A Go int is a natural number where the code only makes it non-negative. Where the code uses -1
-- for "no value" (VotedFor, MatchIndex, PrevLogTerm, XTerm) it is an `Option`, with `none` for -1.
pub use spring.Common.{Bytes}
use spring.Common.{ℕ, ◌<◌, List, Option, some, ◌≡◌, Bool, length}

-- FOLLOWER, LEADER and CANDIDATE.
pub data State : Type 0 where
  follower leader candidate : State

-- A command is an `interface{}` into which the peer never looks; `0` is the literal 0 of the code.
abbrev pub Command : Type 0
Command = ℕ

pub record Log : Type 0 where
  pub log_term : ℕ
  pub command : Command

-- What `persist` encodes, in the order of its `Encode` calls.
pub record Persistent : Type 0 where
  pub current_term : ℕ
  pub voted_for : Option ℕ
  pub log : List Log
  pub last_included_index : ℕ
  pub last_included_term : ℕ

-- encoding/gob, behind the labgob wrappers, of the five values that `persist` writes to one buffer
-- and `readPersist` reads back. What is assumed: it reads back what it wrote, and writes a byte.
pub record Gob : Type 0 where
  pub encode : Persistent → Bytes
  pub decode : Bytes → Option Persistent
  pub decode-encode : (p : Persistent) → decode (encode p) ≡ some p
  pub encode-pos : (p : Persistent) → 0 < length (encode p)

pub record Persister : Type 0 where
  pub raftstate : Bytes
  pub snapshot : Bytes

-- `peers` is the number of RPC end points; the lock, the channel and the condition variable are
-- not data of the peer: a handler is one step, and returns what it sends.
pub record Raft : Type 0 where
  pub current_term : ℕ
  pub commit_index : ℕ
  pub last_applied : ℕ
  pub peers : ℕ
  pub me : ℕ
  pub voted_for : Option ℕ
  pub state : State
  pub last_rpc : ℕ
  pub log : List Log
  pub next_index : List ℕ
  pub match_index : List (Option ℕ)
  pub log_length : ℕ
  pub dead : Bool
  pub snapshot_data : Bytes
  pub last_included_index : ℕ
  pub last_included_term : ℕ
  pub persister : Persister

-- `ApplyMsg`: one of its two halves is valid.
pub data ApplyMsg : Type 0 where
  command_msg : (command : Command) (command_index : ℕ) → ApplyMsg
  snapshot_msg : (snapshot : Bytes) (snapshot_term snapshot_index : ℕ) → ApplyMsg

pub record RequestVoteArgs : Type 0 where
  pub term : ℕ
  pub candidate_id : ℕ
  pub last_log_index : ℕ
  pub last_log_term : ℕ

pub record RequestVoteReply : Type 0 where
  pub term : ℕ
  pub vote_granted : Bool

pub record AppendEntriesArgs : Type 0 where
  pub term : ℕ
  pub leader_id : ℕ
  pub prev_log_index : ℕ
  pub prev_log_term : ℕ
  pub entries : List Log
  pub leader_commit : ℕ

pub record AppendEntriesReply : Type 0 where
  pub term : ℕ
  pub success : Bool
  pub x_term : Option ℕ
  pub x_len : ℕ
  pub x_index : ℕ

pub record SnapshotArgs : Type 0 where
  pub term : ℕ
  pub leader_id : ℕ
  pub last_included_index : ℕ
  pub last_included_term : ℕ
  pub snapdata : Bytes

pub record SnapshotReply : Type 0 where
  pub term : ℕ
