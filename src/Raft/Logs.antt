-- ===== src/Raft/Logs.antt =====
-- The logs of the peers of src/raft/raft.go together: the elections of Raft/Cluster, and the entries
-- that leaders send. A message that has been sent may arrive at any time later, more than once or
-- never. No peer has taken a snapshot, and a message that would send one is lost.
pub mod Quiet
pub mod Checked
pub mod Arrival
pub mod Sound
pub mod Matched
pub mod Sending
pub mod Steps
pub mod Entries
pub mod Winning
pub mod Stepping
pub mod Electing
pub mod Counting
pub mod Runs
pub mod Matching
use spring.Common.{
  ℕ, Bool, true, false, ◌&&◌, ◌==◌, List, [], ◌∷◌, ◌++◌, Option, none, some, get_elem?,
  if◌then◌else◌, ◌>>=◌,
}
use spring.Raft.Types.{Raft, Gob, AppendEntriesArgs, SnapshotArgs}
use spring.Raft.Vote.{wins, add_vote}
use spring.Raft.Leader.{Slot, Message, append_entries, send_snapshot, message, heartbeat_tick}
use spring.Raft.Node.{Event, heartbeat, entries, compact, install}
use spring.Raft.Cluster.{
  Cluster, Move, runs, elects, asks, answers, counts, crashes, cluster_step, founded,
}

-- A message to a peer.
abbrev pub Sent : Type 0
Sent = ℕ × AppendEntriesArgs

pub record Traffic : Type 0 where
  pub cluster : Cluster
  pub sent : List Sent

pub data Act : Type 0 where
  moves : Move → Act
  sends : (i now : ℕ) → Act
  delivers : (k now : ℕ) → Act

-- Entries come from `delivers` and are sent by `sends`; no service compacts a log.
abbrev pub is_apart : Event → Bool
is_apart (entries now args) = true
is_apart (heartbeat now) = true
is_apart (compact index data') = true
is_apart (install now args) = true
is_apart _ = false

abbrev pub is_election : Move → Bool
is_election (runs i e) = if is_apart e then false else true
is_election _ = true

-- The messages of the slots that `HeartBeatLauncher` has filled.
unfoldable pub posted : Raft → List (ℕ × Slot) → List Sent
unfolding message
posted rf [] = []
posted rf ((to, s) ∷ filled) = post (message rf [] s) (posted rf filled)
  where
    post : Message → List Sent → List Sent
    post (append_entries args) rest = (to, args) ∷ rest
    post (send_snapshot args) rest = rest

-- `HeartBeatLauncher` holds the lock while it fills the slots.
unfoldable pub send_entries : Gob → ℕ → ℕ → Traffic → Option Traffic
unfolding heartbeat_tick posted cluster_step
send_entries g i now s = do
  n ← get_elem? s.cluster.nodes i
  (rf, filled) ← heartbeat_tick now n.peer
  c ← cluster_step g (runs i (heartbeat now)) s.cluster
  some (record { cluster = c; sent = posted rf filled ++ s.sent })

-- `HeartbeatHandler` at the peer that a message is for.
unfoldable pub deliver : Gob → ℕ → ℕ → Traffic → Option Traffic
unfolding cluster_step
deliver g k now s = do
  (to, args) ← get_elem? s.sent k
  c ← cluster_step g (runs to (entries now args)) s.cluster
  some (record s { cluster = c })

unfoldable pub take_act : Gob → Act → Traffic → Option Traffic
unfolding cluster_step send_entries deliver
take_act g (moves m) s =
    if is_election m
    then (do c ← cluster_step g m s.cluster; some (record s { cluster = c }))
    else none
take_act g (sends i now) s = send_entries g i now s
take_act g (delivers k now) s = deliver g k now s

unfoldable pub take_acts : Gob → List Act → Traffic → Option Traffic
unfolding take_act
take_acts g [] s = some s
take_acts g (a ∷ as') s = do s' ← take_act g a s; take_acts g as' s'

-- A vote is counted while the candidate is still in the term of its election.
unfoldable pub is_prompt : Act → Traffic → Bool
is_prompt (moves (counts k to)) s = elim (get_elem? s.cluster.elections k) [
  | none ↦ true
  | some e ↦ elim (get_elem? s.cluster.nodes e.args.candidate_id) [
    | none ↦ true
    | some n ↦ n.peer.current_term == e.args.term
  ]
]
is_prompt _ s = true

-- Every vote of a run is.
unfoldable pub are_prompt : Gob → List Act → Traffic → Bool
unfolding is_prompt take_act
are_prompt g [] s = true
are_prompt g (a ∷ as') s =
    let rest : Bool = elim (take_act g a s) [ none ↦ true | some s' ↦ are_prompt g as' s' ] in
    is_prompt a s && rest

abbrev pub no_traffic : Gob → ℕ → Traffic
no_traffic g size = record { cluster = founded g size; sent = [] }
