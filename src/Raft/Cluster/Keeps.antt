-- ===== src/Raft/Cluster/Keeps.antt =====
-- No step of a peer of src/raft/raft.go changes its index or the number of peers.
use spring.Common.{◌≡◌, Option, some, arith}
use spring.Raft.Types.{Raft, Gob}
use spring.Raft.Persist.{persist, make, kill}
use spring.Raft.Vote.{request_vote_handler, election_tick, vote_stale, become_leader, vote_refused}
use spring.Raft.Append.{heartbeat_handler, check_entry, accept, conflict}
use spring.Raft.Snapshot.{snapshot, install_snapshot, send_snapshot}
use spring.Raft.Leader.{
  heartbeat_tick, send_heartbeat, start, replicated_to, back_up, advance_commit,
}
use spring.Raft.Apply.{apply_step}
use spring.Raft.Node.{
  Event, vote_request, election, vote_reply, majority, refusal, heartbeat, entries, entries_reply,
  compact, install, installed, command, apply, crash, stop, step, restart, Ballot,
}

abbrev pub Same : Raft → Raft → Type 0
Same a b = (b.peers ≡ a.peers) × (b.me ≡ a.me)

module _ (g : Gob) where
  restart-Same : (a : Raft) → Same a (restart g a)
  unfolding make
  restart-Same a = ground arith

  pub step-Same :
      (e : Event) (a : Raft) {c : Raft} {vote : Option Ballot}
      → step g e a ≡ some (c, vote)
      → Same a c
  unfolding step persist
  step-Same (vote_request now args) a h = unfold request_vote_handler in ground arith
  step-Same (election now ms) a h = unfold election_tick in ground arith
  step-Same (vote_reply args) a h = unfold vote_stale in ground arith
  step-Same (majority vote) a h = unfold become_leader in ground arith
  step-Same (refusal reply) a h = unfold vote_refused in ground arith
  step-Same (heartbeat now) a h = unfold heartbeat_tick in ground arith
  step-Same (entries now args) a h =
      unfold heartbeat_handler check_entry accept conflict in ground arith
  step-Same (entries_reply to args reply) a h =
      unfold send_heartbeat replicated_to back_up advance_commit in ground arith
  step-Same (compact index data') a h = unfold snapshot in ground arith
  step-Same (install now args) a h = unfold install_snapshot in ground arith
  step-Same (installed to args reply) a h = unfold send_snapshot in ground arith
  step-Same (command x) a h = unfold start in ground arith
  step-Same apply a h = unfold apply_step in ground arith
  step-Same crash a {c} h = ground (arith, restart-Same a)
  step-Same stop a h = unfold kill in ground arith
