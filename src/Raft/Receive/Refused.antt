-- ===== src/Raft/Receive/Refused.antt =====
-- When `HeartbeatHandler` of src/raft/raft.go panics, accepts and refuses, and what a refusal tells
-- the leader.
use spring.Raft.Types.{Raft, Gob, Log, AppendEntriesArgs, AppendEntriesReply}
use spring.Common.{refl, ◌-◌, ℕ, arith, ◌↔◌, ◌≡◌, none, some, true, false, ◌≤◌, ◌<◌}
use spring.Raft.Append.{accept, conflict, blank_reply, Outcome, heartbeat_handler}
use spring.Raft.Index.{entry_at}
use spring.Raft.Valid.Slices.{entry_beyond}
use spring.Raft.Valid.{IsValid}
use spring.Raft.Receive.{
  timed, Arrival, older, below, beyond, checked, arrival, heartbeat-older, heartbeat-below,
  heartbeat-missing, heartbeat-checked,
}

module _ (g : Gob) (rf : Raft) (reply : AppendEntriesReply) where
  pub success-accept :
      (i : ℕ) (args : AppendEntriesArgs) → (accept g i args rf reply).reply.success ≡ true
  unfolding accept
  success-accept i args = ground arith

  pub success-conflict : (i term : ℕ) → (conflict g i term rf reply).reply.success ≡ false
  unfolding conflict
  success-conflict i term = refl

-- The leader's term is no older, and its term for the checked entry is the peer's.
abbrev pub Agrees : AppendEntriesArgs → Raft → Type 0
Agrees args rf =
    (rf.current_term ≤ args.term)
    × ((e : Log) × (entry_at rf args.prev_log_index ≡ some e) × (e.log_term ≡ args.prev_log_term))

module _ (g : Gob) (now : ℕ) (args : AppendEntriesArgs) (rf : Raft) (v : IsValid rf) where
  panics_from :
      Arrival args rf
      → heartbeat_handler g now args rf ≡ none
      → (rf.current_term ≤ args.term) × (args.prev_log_index < rf.last_included_index)
  panics_from (older h) p = absurd (ground (arith, heartbeat-older g now args rf))
  panics_from (below h k) p = (h, k)
  panics_from (beyond h k) p = absurd (ground (arith, heartbeat-missing g now args rf))
  panics_from (checked h k l e here) p = absurd (ground (arith, heartbeat-checked g now args rf e))

  -- On a well-formed peer `HeartbeatHandler` panics exactly when a message of no older term checks
  -- an entry that the peer's snapshot has already swallowed.
  pub heartbeat_panics_iff :
      (heartbeat_handler g now args rf ≡ none)
      ↔ ((rf.current_term ≤ args.term) × (args.prev_log_index < rf.last_included_index))
  heartbeat_panics_iff =
      (panics_from (arrival args rf v), λ h. heartbeat-below g now args rf h.0 h.1 v)

  success_from :
      Arrival args rf
      → {out : Outcome} → heartbeat_handler g now args rf ≡ some out
      → (out.reply.success ≡ true) ↔ Agrees args rf
  success_from (older h) p =
      (λ s. absurd (ground (arith, heartbeat-older g now args rf)), λ s. absurd (omega arith))
  success_from (below h k) p = absurd (ground (arith, heartbeat-below g now args rf))
  success_from (beyond h k) p = (
    λ s. absurd (ground (arith, heartbeat-missing g now args rf)),
    λ s. let (e, here, same) = s.1 in absurd (cc (here, entry_beyond rf args.prev_log_index v k)),
  )
  success_from (checked h k l e here) {out} p =
      let i = args.prev_log_index - rf.last_included_index in
      let reply = blank_reply rf.current_term in
      (
        λ s. (
          h,
          (
            e,
            here,
            ground (
              arith,
              heartbeat-checked g now args rf e,
              success-conflict g (timed g now args rf) reply i e.log_term,
              success-accept g (timed g now args rf) reply i args,
            ),
          ),
        ),
        λ s.
            let (e', here', same) = s.1 in
            ground (
              arith,
              heartbeat-checked g now args rf e,
              success-conflict g (timed g now args rf) reply i e.log_term,
              success-accept g (timed g now args rf) reply i args,
            ),
      )

  -- On a well-formed peer the reply is a success exactly when the leader's term is no older and
  -- the peer has the checked entry, with the leader's term for it.
  pub heartbeat_success_iff :
      {out : Outcome}
      → heartbeat_handler g now args rf ≡ some out
      → (out.reply.success ≡ true) ↔ Agrees args rf
  heartbeat_success_iff p = success_from (arrival args rf v) p
