-- ===== src/Raft/Node.antt =====
-- A peer of src/raft/raft.go over its life: any sequence of its atomic steps, crashes included.
-- A step is what the code does under one hold of the lock; the steps of different RPCs and of the
-- three sections of `SendRequestVote` interleave freely. A run ends at a panic.
pub mod Durable
pub mod Moves
pub mod Sound
pub mod OneVote
pub mod Recovery
use spring.Common.{
  ℕ, ◌+◌, Bool, true, false, List, [], ◌∷◌, Option, none, some, if◌then◌else◌, ◌>>=◌,
}
use spring.Raft.Types.{
  Raft, Gob, Bytes, Command, RequestVoteArgs, RequestVoteReply, AppendEntriesArgs,
  AppendEntriesReply, SnapshotArgs, SnapshotReply, Persister,
}
use spring.Raft.Persist.{make, kill, make_persister}
use spring.Raft.Vote.{
  request_vote_handler, election_tick, vote_stale, add_vote, wins, become_leader, vote_refused,
}
use spring.Raft.Append.{heartbeat_handler}
use spring.Raft.Snapshot.{snapshot, install_snapshot, send_snapshot}
use spring.Raft.Leader.{heartbeat_tick, send_heartbeat, start}
use spring.Raft.Apply.{apply_step}

pub data Event : Type 0 where
  vote_request : (now : ℕ) → RequestVoteArgs → Event
  election : (now ms : ℕ) → Event
  vote_reply : RequestVoteArgs → Event
  majority : (vote : ℕ) → Event
  refusal : RequestVoteReply → Event
  heartbeat : (now : ℕ) → Event
  entries : (now : ℕ) → AppendEntriesArgs → Event
  entries_reply : (to : ℕ) → AppendEntriesArgs → AppendEntriesReply → Event
  compact : (index : ℕ) → Bytes → Event
  install : (now : ℕ) → SnapshotArgs → Event
  installed : (to : ℕ) → SnapshotArgs → SnapshotReply → Event
  command : Command → Event
  apply : Event
  crash : Event
  stop : Event

-- A vote that the peer gives: the term and the candidate.
abbrev pub Ballot : Type 0
Ballot = ℕ × ℕ

abbrev pub granted : RequestVoteArgs → Bool → Option Ballot
granted args true = some (args.term, args.candidate_id)
granted args false = none

abbrev pub own_vote {ℓ} : {A : Type ℓ} → Option (RequestVoteArgs × A) → Option Ballot
own_vote none = none
own_vote (some (args, to)) = some (args.term, args.candidate_id)

abbrev pub restart : Gob → Raft → Raft
restart g rf = make g rf.peers rf.me rf.persister

-- One step: the peer after it, and the vote that it gives. `none` is a panic.
unfoldable pub step : Gob → Event → Raft → Option (Raft × Option Ballot)
step g (vote_request now args) rf = do
  (rf', reply) ← request_vote_handler g now args rf
  some (rf', granted args reply.vote_granted)
step g (election now ms) rf = do (rf', sent) ← election_tick g now ms rf; some (rf', own_vote sent)
step g (vote_reply args) rf = some ((vote_stale args rf).0, none)
step g (majority vote) rf = some (if wins (add_vote vote) rf then become_leader rf else rf, none)
step g (refusal reply) rf = some (vote_refused g reply rf, none)
step g (heartbeat now) rf = do (rf', sent) ← heartbeat_tick now rf; some (rf', none)
step g (entries now args) rf = do out ← heartbeat_handler g now args rf; some (out.peer, none)
step g (entries_reply to args reply) rf = do
  out ← send_heartbeat g to args reply rf
  some (out.peer, none)
step g (compact index data') rf = do rf' ← snapshot g index data' rf; some (rf', none)
step g (install now args) rf = do
  (rf', reply, msgs) ← install_snapshot g now args rf
  some (rf', none)
step g (installed to args reply) rf = do rf' ← send_snapshot g to args reply rf; some (rf', none)
step g (command c) rf = some ((start g c rf).0, none)
step g apply rf = do (rf', sent) ← apply_step rf; some (rf', none)
step g crash rf = some (restart g rf, none)
step g stop rf = some (kill rf, none)

-- A peer with the votes that it has given, the newest first.
pub record Node : Type 0 where
  pub peer : Raft
  pub cast : List Ballot

abbrev pub note : Option Ballot → List Ballot → List Ballot
note none l = l
note (some b) l = b ∷ l

unfoldable pub run : Gob → List Event → Node → Option Node
run g [] n = some n
run g (e ∷ es) n = do
  (rf', vote) ← step g e n.peer
  run g es (record { peer = rf'; cast = note vote n.cast })

-- A peer that starts with an empty persister.
abbrev pub newborn : Gob → ℕ → ℕ → Node
newborn g peers me = record { peer = make g peers me make_persister; cast = [] }
