-- ===== src/Raft/Receive/Accepted.antt =====
-- What the log of a follower is after `HeartbeatHandler` of src/raft/raft.go has accepted.
use native.Mathlib.Decide.{dec_lt}
use spring.Raft.Types.{Raft, Gob, Log, AppendEntriesArgs, AppendEntriesReply}
use spring.Raft.Index.{entry_at}
use spring.Raft.Persist.{persist}
use spring.Common.{
  ◌||◌, lt-length, sym, ◌∙◌, ℕ, suc, ◌+◌, ◌-◌, arith, ◌≡◌, some, true, Bool-cases, inl, inr, ◌<◌,
  List, leb, if◌then◌else◌, get_elem?, take, length, ◌++◌, get_elem?-take, get_elem?-append_left,
  get_elem?-append_right, length-take,
}
use spring.Raft.Append.{Outcome, heartbeat_handler, accept, blank_reply, extend, is_nil}
use spring.Raft.Valid.{IsValid}
use spring.Raft.Valid.Slices.{entry_at-eq, entry_below}
use spring.Raft.Receive.{
  timed, Arrival, older, below, beyond, checked, arrival, heartbeat-older, heartbeat-below,
  heartbeat-missing, heartbeat-checked, log-timed, index-timed,
}
use spring.Raft.Receive.Refused.{success-conflict}

-- Entries depend on the slice and its start alone.
pub entry_at-cong :
    (a b : Raft) (k : ℕ)
    → a.log ≡ b.log
    → a.last_included_index ≡ b.last_included_index
    → entry_at a k ≡ entry_at b k
unfolding entry_at
entry_at-cong a b k p q = ground arith

take-append-get :
    (log es : List Log) (i n : ℕ)
    → i < length log
    → get_elem? (take (suc i) log ++ es) n
      ≡ (if leb n i then get_elem? log n else get_elem? es (n - suc i))
take-append-get log es i n h = elim (dec_lt i n) [
  | yes k ↦
      let size : length (take (suc i) log) ≡ suc i = omega (arith, length-take (suc i) log) in
      ground (arith, get_elem?-append_right (take (suc i) log) es n, size)
  | no k ↦
      let size : length (take (suc i) log) ≡ suc i = omega (arith, length-take (suc i) log) in
      ground
        (arith, get_elem?-append_left (take (suc i) log) es n, get_elem?-take (suc i) log n, size)
]

-- The entries of a slice that is cut after index `i` and goes on with others.
entry_at-extend :
    (i : ℕ) (es : List Log) (rf : Raft) (k : ℕ)
    → i < length rf.log
    → entry_at (extend i es rf) k ≡ (
        if leb k (i + rf.last_included_index)
        then entry_at rf k
        else get_elem? es (k - (i + rf.last_included_index) - 1))
entry_at-extend i es rf k h = elim (dec_lt k rf.last_included_index) [
  | yes p ↦ ground (arith, entry_below rf k p, entry_below (extend i es rf) k p)
  | no p ↦
      let shift : k - rf.last_included_index - suc i ≡ k - (i + rf.last_included_index) - 1 =
        omega arith in
      ground (
        arith,
        entry_at-eq rf k,
        entry_at-eq (extend i es rf) k,
        take-append-get rf.log es i (k - rf.last_included_index) h,
        shift,
      )
]

module _ (g : Gob) (args : AppendEntriesArgs) (reply : AppendEntriesReply) where
  entry_at-accept :
      (i : ℕ) (rf : Raft) (k : ℕ)
      → i < length rf.log
      → entry_at (accept g i args rf reply).peer k ≡ (
          if leb k (i + rf.last_included_index) || is_nil args.entries
          then entry_at rf k
          else get_elem? args.entries (k - (i + rf.last_included_index) - 1))
  unfolding accept persist
  entry_at-accept i rf k h = elim (Bool-cases (is_nil args.entries)) [
    | inl empty ↦ ground (arith, entry_at-cong (accept g i args rf reply).peer rf k)
    | inr some_entries ↦ ground (
      arith,
      entry_at-cong (accept g i args rf reply).peer (extend i args.entries rf) k,
      entry_at-extend i args.entries rf k h,
    )
  ]

module _ (g : Gob) (now : ℕ) (args : AppendEntriesArgs) (rf : Raft) {out : Outcome} (v : IsValid rf)
    (returned : heartbeat_handler g now args rf ≡ some out)
    (success : out.reply.success ≡ true) where
  appends_from :
      Arrival args rf
      → (k : ℕ)
      → entry_at out.peer k ≡ (
          if leb k args.prev_log_index || is_nil args.entries
          then entry_at rf k
          else get_elem? args.entries (k - args.prev_log_index - 1))
  appends_from (older h) k = absurd (ground (arith, heartbeat-older g now args rf))
  appends_from (below h l) k = absurd (ground (arith, heartbeat-below g now args rf))
  appends_from (beyond h l) k = absurd (ground (arith, heartbeat-missing g now args rf))
  appends_from (checked h lo hi e here) k =
      let i = args.prev_log_index - rf.last_included_index in
      let reply = blank_reply rf.current_term in
      let t = timed g now args rf in
      ground (
        arith,
        heartbeat-checked g now args rf e,
        success-conflict g t reply i e.log_term,
        lt-length rf.log i (sym (entry_at-eq rf args.prev_log_index lo) ∙ here),
        entry_at-accept g args reply i t k,
        entry_at-cong t rf k (log-timed g now args rf) (index-timed g now args rf),
        log-timed g now args rf,
        index-timed g now args rf,
      )

  -- After `HeartbeatHandler` has accepted, the entries up to the checked one are as before, and
  -- behind it stand exactly the leader's entries; a message without entries changes none.
  pub heartbeat_appends :
      (k : ℕ)
      → entry_at out.peer k ≡ (
          if leb k args.prev_log_index || is_nil args.entries
          then entry_at rf k
          else get_elem? args.entries (k - args.prev_log_index - 1))
  heartbeat_appends = appends_from (arrival args rf v)
