-- ===== src/Raft/Backup.antt =====
-- The fast backup of src/raft/raft.go: from a refusal of `HeartbeatHandler` to the new `NextIndex`
-- in `SendHeartbeat`.
use native.Mathlib.Decide.{dec_lt, ℕ_discrete}
use spring.Raft.Types.{Raft, Gob, Log, AppendEntriesArgs, AppendEntriesReply}
use spring.Raft.Index.{entry_at}
use spring.Raft.Append.{Outcome, heartbeat_handler, first_of_term, check_entry, accept, conflict}
use spring.Raft.Leader.{quiet, backup, Handled, send_heartbeat, back_up, own_snapshot}
use spring.Raft.Terms.{first_of_term-IsFirst}
use spring.Raft.Valid.{IsValid}
use spring.Raft.Valid.Slices.{entry_at-eq}
use spring.Raft.Receive.{
  Arrival, older, below, beyond, checked, arrival, heartbeat-below, heartbeat-missing,
  log_length-timed,
}
use spring.Raft.Receive.Conflict.{heartbeat_conflict}
use spring.Raft.Receive.Refused.{heartbeat_success_iff}
use spring.Common.{
  ℕ, ◌+◌, ◌-◌, arith, ◌≡◌, some, ◌≤◌, ◌<◌, List, get_elem?, Option-cases, inl, inr, false, sym, ◌∙◌,
  set, get_elem?-set_self, lt-length, if◌then◌else◌, leb,
}

-- Terms never fall along a log.
abbrev pub TermsGrow : List Log → Type 0
TermsGrow log =
    (i j : ℕ) (a b : Log)
    → i ≤ j
    → get_elem? log i ≡ some a
    → get_elem? log j ≡ some b
    → a.log_term ≤ b.log_term

-- The leader's answer to a reported term that is older than that of its entry at `prev`.
backup-reported :
    (leader : Raft) (prev : ℕ) (p : Log) (reply : AppendEntriesReply) (t : ℕ)
    → TermsGrow leader.log
    → leader.last_included_index ≤ prev
    → entry_at leader prev ≡ some p
    → t < p.log_term
    → reply.x_term ≡ some t
    → reply.x_index ≤ prev
    → backup leader reply ≤ prev
unfolding backup
backup-reported leader prev p reply t grow lo here lt xt xi =
    elim (Option-cases (first_of_term t leader.log)) [
      | inl absent ↦ ground arith
      | inr (j, found) ↦
          let first = first_of_term-IsFirst t leader.log j found in
          let (e, at_j, same) = first.entry in
          let at_prev : get_elem? leader.log (prev - leader.last_included_index) ≡ some p =
            sym (entry_at-eq leader prev lo) ∙ here in
          let before : j < prev - leader.last_included_index =
            elim (dec_lt j (prev - leader.last_included_index)) [
              | yes h ↦ h
              | no h ↦ absurd (
                  ground (
                    arith,
                    grow (prev - leader.last_included_index) j p e (omega arith) at_prev at_j,
                  ))
            ] in
          ground arith
    ]

-- `HeartbeatHandler` replies the term that it has found.
heartbeat-term :
    (g : Gob) (now : ℕ) (args : AppendEntriesArgs) (rf : Raft) {out : Outcome}
    → heartbeat_handler g now args rf ≡ some out
    → out.reply.term ≡ rf.current_term
unfolding heartbeat_handler check_entry accept conflict
heartbeat-term g now args rf h = ground arith

-- The new `NextIndex` of a refusal, where the leader is still in the term of its message.
send_heartbeat-refused :
    (g : Gob) (to next : ℕ) (args : AppendEntriesArgs) (reply : AppendEntriesReply) (rf : Raft)
    → rf.current_term ≡ args.term
    → reply.term ≤ args.term
    → reply.success ≡ false
    → get_elem? rf.next_index to ≡ some next
    → (h : Handled) × (send_heartbeat g to args reply rf ≡ some h)
      × (get_elem? h.peer.next_index to ≡ some (backup rf reply))
unfolding send_heartbeat back_up
send_heartbeat-refused g to next args reply rf same le refused here =
    let rf' = record rf { next_index = set rf.next_index to (backup rf reply) } in
    let room = lt-length rf.next_index to here in
    let here' = get_elem?-set_self rf.next_index to (backup rf reply) room in
    (
      (if leb (backup rf reply) rf.last_included_index
          then record { peer = rf'; to_send = some (own_snapshot rf'); broadcast = false }
          else quiet rf'),
      ground (arith, room),
      ground (arith, here'),
    )

module _ (g : Gob) (now : ℕ) (args : AppendEntriesArgs) (leader follower : Raft) (p : Log)
    {out : Outcome} (v : IsValid follower) (grow : TermsGrow leader.log)
    (above : leader.last_included_index ≤ args.prev_log_index)
    (mine : entry_at leader args.prev_log_index ≡ some p) (sent : args.prev_log_term ≡ p.log_term)
    (theirs : (e : Log) → entry_at follower args.prev_log_index ≡ some e → e.log_term ≤ p.log_term)
    (current : follower.current_term ≤ args.term)
    (returned : heartbeat_handler g now args follower ≡ some out)
    (refused : out.reply.success ≡ false) where
  backs_up_from : Arrival args follower → backup leader out.reply ≤ args.prev_log_index
  unfolding backup
  backs_up_from (older h) = absurd (omega arith)
  backs_up_from (below h l) = absurd (ground (arith, heartbeat-below g now args follower))
  backs_up_from (beyond h l) =
      ground (arith, heartbeat-missing g now args follower, log_length-timed g now args follower)
  backs_up_from (checked h lo hi e here) = elim (ℕ_discrete e.log_term args.prev_log_term) [
    | yes same ↦
        let success =
          (heartbeat_success_iff g now args follower v returned).1 (h, (e, here, same)) in
        absurd (ground (arith, success))
    | no ne ↦
        let (out', eq, r, _) = heartbeat_conflict g now args follower v e h here ne in
        let term = r.x_term in
        let to = r.to in
        backup-reported leader args.prev_log_index p out.reply e.log_term grow above mine
          (omega (arith, theirs e here)) (ground (arith, eq, term)) (ground (arith, eq, to))
  ]

  -- A leader whose terms never fall along its log has asked for entries from `NextIndex` on, which
  -- still is the index after the checked one, and is in the term of the message; the checked index
  -- is not below its snapshot. Where a follower of no newer term, whose entry at the checked index
  -- is not of a later term than the leader's, refuses, `SendHeartbeat` does not panic and leaves a
  -- strictly smaller `NextIndex` for the follower.
  pub refused_backs_up :
      (to : ℕ)
      → get_elem? leader.next_index to ≡ some (args.prev_log_index + 1)
      → leader.current_term ≡ args.term
      → (h : Handled) × (next : ℕ) × (send_heartbeat g to args out.reply leader ≡ some h)
        × (get_elem? h.peer.next_index to ≡ some next)
        × (next < args.prev_log_index + 1)
  refused_backs_up to here same =
      let lower = backs_up_from (arrival args follower v) in
      let replied = heartbeat-term g now args follower returned in
      let (h, ran, next) =
        send_heartbeat-refused g to (args.prev_log_index + 1) args out.reply leader same
          (omega (arith, replied)) refused here in
      (h, backup leader out.reply, ran, next, omega arith)
