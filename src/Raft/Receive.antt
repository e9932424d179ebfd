-- ===== src/Raft/Receive.antt =====
-- What `HeartbeatHandler` of src/raft/raft.go does to a well-formed peer.
pub mod Accepted
pub mod Refused
pub mod Conflict
use spring.Common.{
  ℕ, zero, suc, ◌+◌, ◌-◌, ◌≤◌, ◌<◌, ◌≡◌, ◌↔◌, ◌⊎◌, inl, inr, refl, sym, ◌∙◌, Option, none, some,
  List, arith, Bool, true, false, if◌then◌else◌, Option-cases, Bool-cases, get_elem?,
  get_elem?-some, ◌==◌, ltb, leb, pos, negsuc, ℤ, sub_ℕ-pos, lt-length, sub_ℕ-negsuc,
}
use native.Mathlib.Decide.{dec_lt}
use spring.Raft.Types.{Raft, Gob, Log, AppendEntriesArgs}
use spring.Raft.Index.{v2p_index, entry_at}
use spring.Raft.Persist.{persist}
use spring.Raft.Append.{
  Outcome, heartbeat_handler, check_entry, accept, conflict, raise_term, blank_reply, missing,
}
use spring.Raft.Valid.{IsValid}
use spring.Raft.Valid.Slices.{entry_at-eq, entry_at-some, length-first_term}
use spring.Raft.Valid.Steps.{check_entry-eq, raise_term-timed}

-- The peer at the consistency check.
abbrev pub timed : Gob → ℕ → AppendEntriesArgs → Raft → Raft
timed g now args rf = record (raise_term g args.term rf) { last_rpc = now }

module _ (g : Gob) (now : ℕ) (args : AppendEntriesArgs) (rf : Raft) where
  pub log-timed : (timed g now args rf).log ≡ rf.log
  unfolding persist
  log-timed = ground arith

  pub log_length-timed : (timed g now args rf).log_length ≡ rf.log_length
  unfolding persist
  log_length-timed = ground arith

  pub index-timed : (timed g now args rf).last_included_index ≡ rf.last_included_index
  unfolding persist
  index-timed = ground arith

  term-timed : (timed g now args rf).current_term ≡ (raise_term g args.term rf).current_term
  term-timed = refl

  term-raised : rf.current_term ≤ args.term → (raise_term g args.term rf).current_term ≡ args.term
  unfolding persist
  term-raised h = ground arith

  -- A message of an older term changes nothing.
  pub heartbeat-older :
      args.term < rf.current_term
      → heartbeat_handler g now args rf
        ≡ some (record { peer = rf; reply = blank_reply rf.current_term; broadcast = false })
  unfolding heartbeat_handler
  heartbeat-older h = ground arith

  pub heartbeat-missing :
      rf.current_term ≤ args.term
      → rf.log_length ≤ args.prev_log_index
      → heartbeat_handler g now args rf
        ≡ some (missing (timed g now args rf) (blank_reply rf.current_term))
  unfolding heartbeat_handler
  heartbeat-missing h k = ground (arith, term-raised, log_length-timed)

  pub heartbeat-below :
      rf.current_term ≤ args.term
      → args.prev_log_index < rf.last_included_index
      → IsValid rf
      → heartbeat_handler g now args rf ≡ none
  unfolding heartbeat_handler check_entry
  heartbeat-below h k v = ground (
    arith,
    term-raised,
    log_length-timed,
    index-timed,
    sub_ℕ-negsuc args.prev_log_index (timed g now args rf).last_included_index,
  )

  pub heartbeat-checked :
      (e : Log)
      → IsValid rf
      → rf.current_term ≤ args.term
      → rf.last_included_index ≤ args.prev_log_index
      → entry_at rf args.prev_log_index ≡ some e
      → let i = args.prev_log_index - rf.last_included_index in
        let reply = blank_reply rf.current_term in
        heartbeat_handler g now args rf ≡ (
          if args.prev_log_term == e.log_term
          then some (accept g i args (timed g now args rf) reply)
          else some (conflict g i e.log_term (timed g now args rf) reply))
  unfolding heartbeat_handler
  heartbeat-checked e v h lo here =
      let i = args.prev_log_index - rf.last_included_index in
      let at_i : get_elem? rf.log i ≡ some e = sym (entry_at-eq rf args.prev_log_index lo) ∙ here in
      ground (
        arith,
        term-raised,
        log_length-timed,
        index-timed,
        lt-length rf.log i at_i,
        sub_ℕ-pos args.prev_log_index (timed g now args rf).last_included_index,
        check_entry-eq g args (timed g now args rf) (blank_reply rf.current_term) i e
            (raise_term-timed g now args.term v),
        log-timed,
      )

-- The four ways in which a message meets a peer.
pub data Arrival (args : AppendEntriesArgs) (rf : Raft) : Type 0 where
  older : args.term < rf.current_term → Arrival args rf
  beyond : rf.current_term ≤ args.term → rf.log_length ≤ args.prev_log_index → Arrival args rf
  below :
      rf.current_term ≤ args.term → args.prev_log_index < rf.last_included_index → Arrival args rf
  checked :
      rf.current_term ≤ args.term
      → rf.last_included_index ≤ args.prev_log_index
      → args.prev_log_index < rf.log_length
      → (e : Log) → entry_at rf args.prev_log_index ≡ some e
      → Arrival args rf

pub arrival : (args : AppendEntriesArgs) (rf : Raft) → IsValid rf → Arrival args rf
arrival args rf v = elim (dec_lt args.term rf.current_term) [
  | yes h ↦ older h
  | no h ↦ elim (dec_lt args.prev_log_index rf.last_included_index) [
    | yes k ↦ below (omega arith) k
    | no k ↦ elim (dec_lt args.prev_log_index rf.log_length) [
      | yes l ↦
          let (e, here) = entry_at-some rf args.prev_log_index v (omega arith) l in
          checked (omega arith) (omega arith) l e here
      | no l ↦ beyond (omega arith) (omega arith)
    ]
  ]
]
