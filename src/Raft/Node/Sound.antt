-- ===== src/Raft/Node/Sound.antt =====
-- What every step of a peer of src/raft/raft.go keeps, a crash included.
use spring.Common.{
  ℕ, ◌+◌, ◌≡◌, inl, inr, refl, Option, none, some, List, arith, true, if◌then◌else◌, Option-cases,
  Bool-cases, not, ◌&&◌, ltb,
}
use spring.Raft.Types.{Raft, Gob, Persister, RequestVoteArgs, RequestVoteReply, follower, ApplyMsg}
use spring.Raft.Index.{v2p_index, last_entry}
use spring.Raft.Persist.{persist, make, kill}
use spring.Raft.Vote.{
  request_vote_handler, enter_term, election_tick, become_leader, vote_refused, vote_stale, wins,
  vote_for, add_vote,
}
use spring.Raft.Append.{heartbeat_handler}
use spring.Raft.Snapshot.{snapshot, install_snapshot, send_snapshot}
use spring.Raft.Leader.{heartbeat_tick, send_heartbeat, start, Slot}
use spring.Raft.Apply.{apply_step}
use spring.Raft.Valid.{IsValid}
use spring.Raft.Node.{
  Event, vote_request, election, vote_reply, majority, refusal, heartbeat, entries, entries_reply,
  compact, install, installed, command, apply, crash, stop, step, restart, Ballot,
}
use spring.Raft.Node.Durable.{
  Later, IsDurable, SameSaved, Moves, Moves-persist, Moves-same, Moves-if, make-persist,
  Moves-after,
}
use spring.Raft.Valid.Steps
use spring.Raft.Node.Moves

-- What holds of a peer between any two steps.
pub record IsSound (g : Gob) (rf : Raft) : Type 0 where
  pub valid : IsValid rf
  pub durable : IsDurable g rf

module _ (g : Gob) where
  -- `Make` keeps the parameters that it is given.
  make-fields :
      (peers me : ℕ) (ps : Persister)
      → let rf = make g peers me ps in (rf.peers ≡ peers) × (rf.me ≡ me) × (rf.persister ≡ ps)
  unfolding make
  make-fields peers me ps = ground arith

  pub restart-restart : (rf : Raft) → restart g (restart g rf) ≡ restart g rf
  restart-restart rf =
      let (peers, me, persister) = make-fields rf.peers rf.me rf.persister in
      cc (peers, me, persister)

  -- A crash leaves a sound peer sound.
  crash-IsSound : (rf : Raft) → IsSound g rf → IsSound g (restart g rf)
  crash-IsSound rf s = record {
    valid = ground (arith, s.durable, s.valid);
    durable = ground (arith, restart-restart rf, s.durable);
  }

  become_leader-Moves : (a : Raft) → IsDurable g a → Moves g a (become_leader a)
  unfolding become_leader
  become_leader-Moves a d = Moves-same g a d (become_leader a) (ground arith) (ground arith)

  vote_refused-Moves :
      (reply : RequestVoteReply) (a : Raft) → IsDurable g a → Moves g a (vote_refused g reply a)
  unfolding vote_refused
  vote_refused-Moves reply a d =
      let raised = record a { current_term = reply.term } in
      Moves-if g a d (not reply.vote_granted && ltb a.current_term reply.term)
        (record (persist g raised) { state = follower }) a
        (λ later.
          Moves-after g a d (persist g raised) _ (Moves-persist g a d raised (ground arith))
            (ground arith) (ground arith))
        (λ _. Moves-same g a d a (ground arith) (ground arith))

  -- A vote that is granted is saved before the reply is sent.
  vote_request-saves :
      (now : ℕ) (args : RequestVoteArgs) (rf : Raft) {rf' : Raft} {reply : RequestVoteReply}
      → request_vote_handler g now args rf ≡ some (rf', reply)
      → reply.vote_granted ≡ true
      → ((restart g rf').current_term ≡ args.term)
        × ((restart g rf').voted_for ≡ some args.candidate_id)
  unfolding request_vote_handler persist
  vote_request-saves now args rf {rf'} h e =
      elim (Option-cases (last_entry (enter_term args.term rf))) [
        | inl panic ↦ absurd (ground arith)
        | inr (last, f) ↦
            ground (arith, make-persist g (vote_for now args (enter_term args.term rf)))
      ]

  election-saves :
      (now ms : ℕ) (rf : Raft) {rf' : Raft} {args : RequestVoteArgs} {to : List ℕ}
      → election_tick g now ms rf ≡ some (rf', some (args, to))
      → ((restart g rf').current_term ≡ args.term)
        × ((restart g rf').voted_for ≡ some args.candidate_id)
  unfolding election_tick persist
  election-saves now ms rf {rf'} h = ground (
    arith,
    make-persist g (record rf { current_term = rf.current_term + 1; voted_for = some rf.me }),
  )

  -- Every vote is saved by the step that gives it.
  pub step-saves :
      (e : Event) (rf : Raft) {rf' : Raft} {t c : ℕ}
      → step g e rf ≡ some (rf', some (t, c))
      → ((restart g rf').current_term ≡ t) × ((restart g rf').voted_for ≡ some c)
  unfolding step
  step-saves (vote_request now args) rf {rf'} {t} {c} h =
      elim (Option-cases (request_vote_handler g now args rf)) [
        | inl panic ↦ absurd (ground arith)
        | inr ((rf1, reply), f) ↦ ground (arith, vote_request-saves now args rf f)
      ]
  step-saves (election now ms) rf h = elim (Option-cases (election_tick g now ms rf)) [
    | inl panic ↦ absurd (ground arith)
    | inr ((rf1, none), f) ↦ absurd (ground arith)
    | inr ((rf1, some (args, to)), f) ↦ ground (arith, election-saves now ms rf f)
  ]
  step-saves _ rf h = absurd (ground arith)

  -- What a step does to a sound peer: it stays sound, and the saved ballot gets no earlier.
  pub record Advances (a b : Raft) : Type 0 where
    pub sound : IsSound g b
    pub saved : Later (restart g a) (restart g b)

  advance : (a b c : Raft) → c ≡ b → IsValid b → Moves g a b → Advances a c
  advance a b c e v m =
      rw e (record { sound = record { valid = v; durable = m.durable }; saved = m.saved })

  quiet-Advances : (a c : Raft) → IsSound g a → SameSaved a c → Later a c → IsValid c → Advances a c
  quiet-Advances a c s same l v = advance a c c refl v (Moves-same g a s.durable c same l)

  majority-Advances :
      (vote : ℕ) (a : Raft) → IsSound g a → Advances a (if wins vote a then become_leader a else a)
  majority-Advances vote a s = elim (Bool-cases (wins vote a)) [
    | inl won ↦ rw won (
        advance a (become_leader a) _ refl (unfold become_leader in ground (arith, s.valid))
          (become_leader-Moves a s.durable))
    | inr lost ↦ rw lost (quiet-Advances a a s (ground arith) (ground arith) s.valid)
  ]

  heartbeat-Advances :
      (now : ℕ) (a : Raft) {c : Raft} {sent : List (ℕ × Slot)}
      → IsSound g a
      → heartbeat_tick now a ≡ some (c, sent)
      → Advances a c
  unfolding heartbeat_tick
  heartbeat-Advances now a {c} s h =
      quiet-Advances a c s (ground arith) (ground arith) (ground (arith, s.valid))

  apply-Advances :
      (a : Raft) {c : Raft} {sent : Option ApplyMsg}
      → IsSound g a
      → apply_step a ≡ some (c, sent)
      → Advances a c
  unfolding apply_step
  apply-Advances a {c} s h =
      quiet-Advances a c s (ground arith) (ground arith) (ground (arith, s.valid))

  crash-Advances : (a : Raft) → IsSound g a → Advances a (restart g a)
  crash-Advances a s = record {
    sound = crash-IsSound a s;
    saved = ground (arith, restart-restart a);
  }

  Advances-eq : (a b c : Raft) → Advances a b → c ≡ b → Advances a c
  Advances-eq a b c p e = rw e p

  pub step-Advances :
      (e : Event) (a : Raft) {c : Raft} {vote : Option Ballot}
      → IsSound g a
      → step g e a ≡ some (c, vote)
      → Advances a c
  unfolding step
  step-Advances (vote_request now args) a {c} s h =
      elim (Option-cases (request_vote_handler g now args a)) [
        | inl panic ↦ absurd (ground arith)
        | inr ((b, reply), f) ↦
            advance a b c (ground arith) (Steps.request_vote_handler-IsValid g now args s.valid f)
              (Moves.request_vote_handler-Moves g now args a s.durable f)
      ]
  step-Advances (election now ms) a {c} s h = elim (Option-cases (election_tick g now ms a)) [
    | inl panic ↦ absurd (ground arith)
    | inr ((b, sent), f) ↦
        advance a b c (ground arith) (Steps.election_tick-IsValid g now ms s.valid f)
          (Moves.election_tick-Moves g now ms a s.durable f)
  ]
  step-Advances (vote_reply args) a {c} s h =
      advance a c c refl (unfold vote_stale in ground (arith, s.valid)) (
        Moves-same g a s.durable c (unfold vote_stale in ground arith)
          (unfold vote_stale in ground arith))
  step-Advances (majority vote) a {c} s h =
      let vote' = add_vote vote in
      Advances-eq a (if wins vote' a then become_leader a else a) c (majority-Advances vote' a s)
        (ground arith)
  step-Advances (refusal reply) a {c} s h =
      advance a (vote_refused g reply a) c (ground arith)
        (unfold vote_refused persist in ground (arith, s.valid))
        (vote_refused-Moves reply a s.durable)
  step-Advances (heartbeat now) a {c} s h = elim (Option-cases (heartbeat_tick now a)) [
    | inl panic ↦ absurd (ground arith)
    | inr ((b, sent), f) ↦ Advances-eq a b c (heartbeat-Advances now a s f) (ground arith)
  ]
  step-Advances (entries now args) a {c} s h =
      elim (Option-cases (heartbeat_handler g now args a)) [
        | inl panic ↦ absurd (ground arith)
        | inr (out, f) ↦
            advance a out.peer c (ground arith)
              (Steps.heartbeat_handler-IsValid g now args s.valid f)
              (Moves.heartbeat_handler-Moves g now args a s.valid s.durable f)
      ]
  step-Advances (entries_reply to args reply) a {c} s h =
      elim (Option-cases (send_heartbeat g to args reply a)) [
        | inl panic ↦ absurd (ground arith)
        | inr (out, f) ↦
            advance a out.peer c (ground arith)
              (Steps.send_heartbeat-IsValid g to args reply s.valid f)
              (Moves.send_heartbeat-Moves g a s.durable to args reply f)
      ]
  step-Advances (compact index data') a {c} s h = elim (Option-cases (snapshot g index data' a)) [
    | inl panic ↦ absurd (ground arith)
    | inr (b, f) ↦ advance a b c (ground arith) (Steps.snapshot-IsValid g index data' s.valid f) (
        Moves.snapshot_at-Moves g index data' a (v2p_index a index) s.durable
          (unfold snapshot in f))
  ]
  step-Advances (install now args) a {c} s h = elim (Option-cases (install_snapshot g now args a)) [
    | inl panic ↦ absurd (ground arith)
    | inr ((b, reply, msgs), f) ↦
        advance a b c (ground arith) (Steps.install_snapshot-IsValid g now args s.valid f)
          (Moves.install_snapshot-Moves g now args a s.durable f)
  ]
  step-Advances (installed to args reply) a {c} s h =
      elim (Option-cases (send_snapshot g to args reply a)) [
        | inl panic ↦ absurd (ground arith)
        | inr (b, f) ↦
            advance a b c (ground arith) (Steps.send_snapshot-IsValid g to args reply s.valid f)
              (Moves.send_snapshot-Moves g a s.durable to args reply f)
      ]
  step-Advances (command x) a {c} s h =
      advance a (start g x a).0 c (ground arith) (Steps.start-IsValid g x s.valid)
        (Moves.start-Moves g a s.durable x)
  step-Advances apply a {c} s h = elim (Option-cases (apply_step a)) [
    | inl panic ↦ absurd (ground arith)
    | inr ((b, sent), f) ↦ Advances-eq a b c (apply-Advances a s f) (ground arith)
  ]
  step-Advances crash a {c} s h = Advances-eq a (restart g a) c (crash-Advances a s) (ground arith)
  step-Advances stop a {c} s h =
      advance a (kill a) c (ground arith) (unfold kill in ground (arith, s.valid)) (
        Moves-same g a s.durable (kill a) (unfold kill in ground arith)
          (unfold kill in ground arith))
