-- ===== src/Raft/Logs/Quiet.antt =====
-- The steps of a peer of src/raft/raft.go that leave its log alone.
use spring.Common.{◌+◌, Bool, true, false, ◌≤◌, ◌≡◌, ◌⊎◌, inl, refl, Option, some, arith}
use spring.Raft.Types.{Raft, Gob}
use spring.Raft.Index.{is_leader}
use spring.Raft.Persist.{persist, kill}
use spring.Raft.Vote.{
  enter_term, vote_for, elect_launcher, request_vote_handler, election_tick, vote_stale,
  vote_refused,
}
use spring.Raft.Snapshot.{send_snapshot}
use spring.Raft.Leader.{heartbeat_tick, send_heartbeat, replicated_to, back_up, advance_commit}
use spring.Raft.Apply.{apply_step}
use spring.Raft.Node.{
  Event, vote_request, election, vote_reply, majority, refusal, heartbeat, entries, entries_reply,
  compact, install, installed, command, apply, crash, stop, step, restart, Ballot,
}
use spring.Raft.Node.Durable.{make-persist}

-- The events without a win, a new entry, entries of others, snapshots and crashes.
abbrev pub is_quiet : Event → Bool
is_quiet (majority vote) = false
is_quiet (entries now args) = false
is_quiet (compact index data') = false
is_quiet (install now args) = false
is_quiet (command c) = false
is_quiet crash = false
is_quiet _ = true

-- What a step without new entries changes: a term may rise, and then the peer does not lead.
pub record IsQuiet (g : Gob) (a b : Raft) : Type 0 where
  pub log : b.log ≡ a.log
  pub index : b.last_included_index ≡ a.last_included_index
  pub term : b.last_included_term ≡ a.last_included_term
  pub later : a.current_term ≤ b.current_term
  pub leads :
      is_leader b.state ≡ true → (is_leader a.state ≡ true) × (b.current_term ≡ a.current_term)
  pub saves : (b.persister ≡ a.persister) ⊎ ((restart g b).current_term ≡ b.current_term)

module _ (g : Gob) where
  pub IsQuiet-refl : (a : Raft) → IsQuiet g a a
  IsQuiet-refl a = record {
    log = refl;
    index = refl;
    term = refl;
    later = omega arith;
    leads = λ l. (l, refl);
    saves = inl refl;
  }

  pub step-IsQuiet :
      (e : Event) (a : Raft) {c : Raft} {vote : Option Ballot}
      → is_quiet e ≡ true
      → step g e a ≡ some (c, vote)
      → IsQuiet g a c
  unfolding step persist
  step-IsQuiet (vote_request now args) a q h =
      let entered = enter_term args.term a in
      unfold request_vote_handler in
      ground (arith, make-persist g (vote_for now args entered), make-persist g entered)
  step-IsQuiet (election now ms) a q h =
      let standing = record a { current_term = a.current_term + 1; voted_for = some a.me } in
      unfold election_tick elect_launcher in ground (arith, make-persist g standing)
  step-IsQuiet (vote_reply args) a q h = unfold vote_stale in ground arith
  step-IsQuiet (majority vote) a q h = absurd (cc q)
  step-IsQuiet (refusal reply) a q h =
      unfold vote_refused in ground (arith, make-persist g (record a { current_term = reply.term }))
  step-IsQuiet (heartbeat now) a q h = unfold heartbeat_tick in ground arith
  step-IsQuiet (entries now args) a q h = absurd (cc q)
  step-IsQuiet (entries_reply to args reply) a q h =
      unfold send_heartbeat replicated_to back_up advance_commit in
      ground (arith, make-persist g (record a { current_term = reply.term }))
  step-IsQuiet (compact index data') a q h = absurd (cc q)
  step-IsQuiet (install now args) a q h = absurd (cc q)
  step-IsQuiet (installed to args reply) a q h =
      unfold send_snapshot in
      ground (arith, make-persist g (record a { current_term = reply.term }))
  step-IsQuiet (command x) a q h = absurd (cc q)
  step-IsQuiet apply a q h = unfold apply_step in ground arith
  step-IsQuiet crash a q h = absurd (cc q)
  step-IsQuiet stop a q h = unfold kill in ground arith
