-- ===== src/Raft/Node/Moves.antt =====
-- Each step of src/raft/raft.go moves the ballot forward and leaves what it must save saved.
use spring.Common.{
  ℤ, pos, negsuc, get_elem?, Option-cases, some, Bool-cases, inl, inr, ◌==◌, ◌&&◌, ltb, ℕ, ◌≡◌,
  Option, arith, if◌then◌else◌, ◌||◌, leb, ◌+◌, ◌-◌, List,
}
use spring.Raft.Types.{
  Log, Raft, Gob, follower, Command, RequestVoteArgs, AppendEntriesArgs, AppendEntriesReply,
  SnapshotArgs, SnapshotReply, RequestVoteReply, ApplyMsg, Bytes,
}
use spring.Raft.Index.{is_leader, v2p_index, last_entry, is_follower}
use spring.Raft.Persist.{persist}
use spring.Raft.Vote.{cast_vote, vote_for, grants, enter_term, request_vote_handler, election_tick}
use spring.Raft.Append.{
  conflict, accept, truncate, extend, raise_term, is_nil, Outcome, heartbeat_handler, blank_reply,
  check_entry,
}
use spring.Raft.Snapshot.{
  install, newer_term, send_snapshot, install_snapshot, has_entry, snapshot_at, cut,
}
use spring.Raft.Leader.{
  start, Handled, send_heartbeat, replicated_to, advance_commit, back_up, newer, appended,
}
use spring.Raft.Valid.{IsValid}
use spring.Raft.Valid.Steps.{check_entry-eq, raise_term-timed}
use spring.Raft.Node.Durable.{
  Moves-trans, Moves-eq, Later, IsDurable, SameSaved, Moves, Moves-persist, Moves-same, Moves-after,
  Moves-if,
}

module _ (g : Gob) (a : Raft) (d : IsDurable g a) where
  pub enter_term-Moves : (term : ℕ) → Moves g a (enter_term term a)
  enter_term-Moves term = Moves-same g a d (enter_term term a) (ground arith) (ground arith)

  -- A vote in the peer's own term, or none.
  pub cast_vote-Moves :
      (now : ℕ) (args : RequestVoteArgs) (last : Log)
      → let b = enter_term args.term a in Moves g a (cast_vote g now args (grants args b last) b)
  cast_vote-Moves now args last = elim (Bool-cases (grants args (enter_term args.term a) last)) [
    | inl yes_vote ↦
        rw yes_vote
          (Moves-persist g a d (vote_for now args (enter_term args.term a)) (ground arith))
    | inr no_vote ↦ rw no_vote (
        Moves-if g a d (ltb (enter_term args.term a).current_term args.term)
          (persist g (enter_term args.term a)) (enter_term args.term a)
          (λ _. Moves-persist g a d (enter_term args.term a) (ground arith))
          (λ _. enter_term-Moves args.term))
  ]

  pub install-Moves :
      (now : ℕ) (args : SnapshotArgs) (kept : Option ℕ)
      → Moves g a
          (persist g (install args (record (enter_term args.term a) { last_rpc = now }) kept))
  install-Moves now args kept =
      Moves-persist g a d (install args (record (enter_term args.term a) { last_rpc = now }) kept)
        (ground arith)

  pub raise_term-Moves :
      (now term : ℕ) → Moves g a (record (raise_term g term a) { last_rpc = now })
  raise_term-Moves now term =
      Moves-after g a d (raise_term g term a) (record (raise_term g term a) { last_rpc = now })
        (Moves-if g a d (ltb a.current_term term) _ a
          (λ newer_term.
            Moves-persist g a d (record a { current_term = term; state = follower }) (ground arith))
          (λ _. Moves-same g a d a (ground arith) (ground arith)))
        (ground arith) (ground arith)

  pub newer-Moves : (term : ℕ) → Moves g a (newer g term a)
  newer-Moves term =
      Moves-if g a d (ltb a.current_term term) _ a
        (λ later. Moves-persist g a d (record a { current_term = term }) (ground arith))
        (λ _. Moves-same g a d a (ground arith) (ground arith))

  pub accept-Moves :
      (i : ℕ) (args : AppendEntriesArgs) (reply : AppendEntriesReply)
      → Moves g a (accept g i args a reply).peer
  unfolding accept
  accept-Moves i args reply =
      Moves-after g a d (if is_nil args.entries then a else persist g (extend i args.entries a)) _
        (Moves-if g a d (is_nil args.entries) a (persist g (extend i args.entries a))
          (λ _. Moves-same g a d a (ground arith) (ground arith))
          (λ _. Moves-persist g a d (extend i args.entries a) (ground arith)))
        (ground arith) (ground arith)

  pub conflict-Moves :
      (i term : ℕ) (reply : AppendEntriesReply) → Moves g a (conflict g i term a reply).peer
  unfolding conflict
  conflict-Moves i term reply = Moves-persist g a d (truncate i a) (ground arith)

  pub start-Moves : (c : Command) → Moves g a (start g c a).0
  unfolding start
  start-Moves c = elim (Bool-cases (is_leader a.state)) [
    | inl leads ↦ rw leads (Moves-persist g a d (appended c a) (ground arith))
    | inr waits ↦ rw waits (Moves-same g a d a (ground arith) (ground arith))
  ]

  pub newer_term-Moves : (term : ℕ) → Moves g a (newer_term g term a)
  newer_term-Moves term =
      Moves-if g a d (ltb a.current_term term) _ a
        (λ later.
          Moves-persist g a d (record a { state = follower; current_term = term }) (ground arith))
        (λ _. Moves-same g a d a (ground arith) (ground arith))

  pub send_snapshot-Moves :
      (to : ℕ) (args : SnapshotArgs) (reply : SnapshotReply) {b : Raft}
      → send_snapshot g to args reply a ≡ some b
      → Moves g a b
  unfolding send_snapshot
  send_snapshot-Moves to args reply {b} h = elim (Bool-cases (a.current_term == args.term)) [
    | inl current ↦
        Moves-after g a d (newer_term g reply.term a) b (newer_term-Moves reply.term) (ground arith)
          (ground arith)
    | inr stale ↦ Moves-same g a d b (ground arith) (ground arith)
  ]

  replicated_to-same :
      (to : ℕ) (args : AppendEntriesArgs) {out : Handled}
      → replicated_to to args a ≡ some out
      → SameSaved a out.peer × Later a out.peer
  unfolding replicated_to advance_commit
  replicated_to-same to args h = (ground arith, ground arith)

  back_up-same :
      (to : ℕ) (reply : AppendEntriesReply) {out : Handled}
      → back_up to reply a ≡ some out
      → SameSaved a out.peer × Later a out.peer
  unfolding back_up
  back_up-same to reply h = (ground arith, ground arith)

  pub send_heartbeat-Moves :
      (to : ℕ) (args : AppendEntriesArgs) (reply : AppendEntriesReply) {out : Handled}
      → send_heartbeat g to args reply a ≡ some out
      → Moves g a out.peer
  unfolding send_heartbeat
  send_heartbeat-Moves to args reply {out} h =
      elim (Bool-cases (a.current_term == args.term && ltb args.term reply.term)) [
        | inl older ↦
            Moves-after g a d (newer g reply.term a) out.peer (newer-Moves reply.term)
              (ground arith) (ground arith)
        | inr same ↦
            Moves-same g a d out.peer
              (ground
                (arith, replicated_to-same to args {out = out}, back_up-same to reply {out = out}))
              (ground
                (arith, replicated_to-same to args {out = out}, back_up-same to reply {out = out}))
      ]

module _ (g : Gob) where
  pub check_entry-Moves :
      (args : AppendEntriesArgs) (rf : Raft) (reply : AppendEntriesReply) (k : ℤ) {out : Outcome}
      → IsValid rf
      → IsDurable g rf
      → check_entry g args rf reply k ≡ some out
      → Moves g rf out.peer
  check_entry-Moves args rf reply (negsuc i) v d h = absurd (unfold check_entry in cc h)
  check_entry-Moves args rf reply (pos i) {out} v d h = elim (Option-cases (get_elem? rf.log i)) [
    | inl gone ↦ absurd (unfold check_entry in cc (h, gone))
    | inr (e, here) ↦ elim (Bool-cases (args.prev_log_term == e.log_term)) [
      | inl agree ↦
          Moves-eq g rf (accept g i args rf reply).peer out.peer (accept-Moves g rf d i args reply)
            (ground (arith, check_entry-eq g args rf reply i e v here))
      | inr differ ↦
          Moves-eq g rf (conflict g i e.log_term rf reply).peer out.peer
            (conflict-Moves g rf d i e.log_term reply)
            (ground (arith, check_entry-eq g args rf reply i e v here))
    ]
  ]

  pub heartbeat_handler-Moves :
      (now : ℕ) (args : AppendEntriesArgs) (rf : Raft) {out : Outcome}
      → IsValid rf
      → IsDurable g rf
      → heartbeat_handler g now args rf ≡ some out
      → Moves g rf out.peer
  unfolding heartbeat_handler
  heartbeat_handler-Moves now args rf {out} v d h =
      let timed = record (raise_term g args.term rf) { last_rpc = now } in
      let entered = raise_term-Moves g rf d now args.term in
      elim (Bool-cases
        (ltb args.term timed.current_term || leb timed.log_length args.prev_log_index)) [
          | inl refused ↦ Moves-after g rf d timed out.peer entered (ground arith) (ground arith)
          | inr checked ↦ Moves-trans g rf timed out.peer entered (
              check_entry-Moves args timed (blank_reply rf.current_term)
                (v2p_index timed args.prev_log_index) {out = out}
                (raise_term-timed g now args.term v) entered.durable (ground arith))
        ]

  pub request_vote_handler-Moves :
      (now : ℕ) (args : RequestVoteArgs) (rf : Raft) {rf' : Raft} {reply : RequestVoteReply}
      → IsDurable g rf
      → request_vote_handler g now args rf ≡ some (rf', reply)
      → Moves g rf rf'
  unfolding request_vote_handler
  request_vote_handler-Moves now args rf {rf'} d h =
      let b = enter_term args.term rf in
      elim (Option-cases (last_entry (enter_term args.term rf))) [
        | inl panic ↦ absurd (ground arith)
        | inr (last, e) ↦
            Moves-eq g rf (cast_vote g now args (grants args b last) b) rf'
              (cast_vote-Moves g rf d now args last) (ground arith)
      ]

  pub election_tick-Moves :
      (now ms : ℕ) (rf : Raft) {rf' : Raft} {sent : Option (RequestVoteArgs × List ℕ)}
      → IsDurable g rf
      → election_tick g now ms rf ≡ some (rf', sent)
      → Moves g rf rf'
  unfolding election_tick
  election_tick-Moves now ms rf {rf'} d h =
      let candidate = record rf { current_term = rf.current_term + 1; voted_for = some rf.me } in
      elim (Bool-cases (is_follower rf.state && ltb ms (now - rf.last_rpc))) [
        | inl starts ↦
            Moves-after g rf d (persist g candidate) rf'
              (Moves-persist g rf d candidate (ground arith)) (ground arith) (ground arith)
        | inr waits ↦ Moves-same g rf d rf' (ground arith) (ground arith)
      ]

  pub install_snapshot-Moves :
      (now : ℕ) (args : SnapshotArgs) (rf : Raft) {rf' : Raft} {reply : SnapshotReply}
      {msgs : List ApplyMsg}
      → IsDurable g rf
      → install_snapshot g now args rf ≡ some (rf', reply, msgs)
      → Moves g rf rf'
  unfolding install_snapshot
  install_snapshot-Moves now args rf {rf'} d h =
      let timed = record (enter_term args.term rf) { last_rpc = now } in
      elim (Option-cases (has_entry args timed (v2p_index timed args.last_included_index))) [
        | inl panic ↦ Moves-same g rf d rf' (ground arith) (ground arith)
        | inr (kept, e) ↦ elim (Bool-cases (ltb args.term rf.current_term)) [
          | inl refused ↦ Moves-same g rf d rf' (ground arith) (ground arith)
          | inr taken ↦
              Moves-eq g rf (persist g (install args timed kept)) rf'
                (install-Moves g rf d now args kept) (ground arith)
        ]
      ]

  pub snapshot_at-Moves :
      (index : ℕ) (data' : Bytes) (rf : Raft) (k : ℤ) {rf' : Raft}
      → IsDurable g rf
      → snapshot_at g index data' rf k ≡ some rf'
      → Moves g rf rf'
  snapshot_at-Moves index data' rf (negsuc i) d h = absurd (cc h)
  snapshot_at-Moves index data' rf (pos i) {rf'} d h = elim (Option-cases (get_elem? rf.log i)) [
    | inl missing ↦ absurd (ground arith)
    | inr (e, here) ↦
        Moves-eq g rf (persist g (cut index data' i e rf)) rf'
          (Moves-persist g rf d (cut index data' i e rf) (ground arith)) (ground arith)
  ]
