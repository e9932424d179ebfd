-- ===== src/Raft/Receive/Conflict.antt =====
-- What `HeartbeatHandler` of src/raft/raft.go reports and drops where the terms differ.
use spring.Raft.Types.{Raft, Gob, Log, AppendEntriesArgs, AppendEntriesReply}
use spring.Raft.Index.{entry_at}
use spring.Raft.Persist.{persist}
use spring.Raft.Append.{Outcome, heartbeat_handler, conflict, blank_reply, kept}
use spring.Raft.Terms.{IsFirst, first_of_term-found, first_of_term-IsFirst, IsFirst-take}
use spring.Raft.Valid.{IsValid}
use native.Mathlib.Decide.{dec_lt}
use spring.Common.{
  get_elem?-take_if, refl, max, ℕ, suc, ◌+◌, ◌-◌, arith, ◌≡◌, ◌≢◌, some, none, ◌≤◌, ◌<◌, ltb,
  if◌then◌else◌, get_elem?, take, length, ◌∙◌, get_elem?-take, false,
}
use spring.Raft.Valid.Slices.{length-first_term, entry_at-eq, entry_below}
use spring.Raft.Receive.{timed, heartbeat-checked, log-timed, index-timed}
use spring.Raft.Receive.Accepted.{entry_at-cong}

-- What a peer tells the leader of a conflict at index `prev` with an entry of term `t`.
pub record Reports (rf : Raft) (prev t : ℕ) (reply : AppendEntriesReply) : Type 0 where
  pub refused : reply.success ≡ false
  pub x_term : reply.x_term ≡ some t
  pub from : rf.last_included_index ≤ reply.x_index
  pub to : reply.x_index ≤ prev
  pub first : IsFirst t rf.log (reply.x_index - rf.last_included_index)

module _ (g : Gob) (reply : AppendEntriesReply) (rf : Raft) where
  conflict-Reports :
      (i : ℕ) (e : Log)
      → get_elem? rf.log i ≡ some e
      → reply.x_index ≡ 0
      → Reports rf (i + rf.last_included_index) e.log_term (conflict g i e.log_term rf reply).reply
  unfolding conflict
  conflict-Reports i e here zero_index =
      let t = e.log_term in
      let in_prefix : get_elem? (take (suc i) rf.log) i ≡ some e =
        get_elem?-take (suc i) rf.log i (omega arith) ∙ here in
      let (k, found, le) = first_of_term-found t (take (suc i) rf.log) i e in_prefix refl in
      let offset : k + rf.last_included_index - rf.last_included_index ≡ k = omega arith in
      record {
        refused = refl;
        x_term = refl;
        from = ground arith;
        to = ground arith;
        first = rw found (
            rw offset (
              IsFirst-take t (suc i) rf.log k (omega arith)
                (first_of_term-IsFirst t (take (suc i) rf.log) k found)));
      }

  -- The log after a conflict at slice index `i`: the entries below it, and always the first.
  entry_at-conflict :
      (i term k : ℕ)
      → 0 < length rf.log
      → entry_at (conflict g i term rf reply).peer k
        ≡ (if ltb k (kept i + rf.last_included_index) then entry_at rf k else none)
  unfolding conflict persist
  entry_at-conflict i term k h = elim (dec_lt k rf.last_included_index) [
    | yes p ↦ ground (arith, entry_below rf k p, entry_below (conflict g i term rf reply).peer k p)
    | no p ↦ ground (
      arith,
      entry_at-eq rf k,
      entry_at-eq (conflict g i term rf reply).peer k,
      get_elem?-take_if (kept i) rf.log (k - rf.last_included_index),
    )
  ]

Reports-cong :
    (a b : Raft) (m n t : ℕ) (reply : AppendEntriesReply)
    → a.log ≡ b.log
    → a.last_included_index ≡ b.last_included_index
    → m ≡ n
    → Reports a m t reply
    → Reports b n t reply
Reports-cong a b m n t reply p q e r = record {
  refused = r.refused;
  x_term = r.x_term;
  from = rw q at r.from;
  to = rw e at r.to;
  first = rw p at (rw q at r.first);
}

module _ (g : Gob) (now : ℕ) (args : AppendEntriesArgs) (rf : Raft) (v : IsValid rf) where
  -- Where the peer has the checked entry with another term than the leader's,
  -- `HeartbeatHandler` refuses, reports that term and the index of its first entry, which lies
  -- between the snapshot and the checked index, and drops the checked entry and all behind it,
  -- but not the entry of the snapshot.
  pub heartbeat_conflict :
      (e : Log)
      → rf.current_term ≤ args.term
      → entry_at rf args.prev_log_index ≡ some e
      → e.log_term ≢ args.prev_log_term
      → (out : Outcome) × (heartbeat_handler g now args rf ≡ some out)
        × Reports rf args.prev_log_index e.log_term out.reply
        × ((k : ℕ)
            → entry_at out.peer k ≡ (
                if ltb k (max args.prev_log_index (rf.last_included_index + 1))
                then entry_at rf k
                else none))
  heartbeat_conflict e h here ne =
      let i = args.prev_log_index - rf.last_included_index in
      let reply = blank_reply rf.current_term in
      let t = timed g now args rf in
      let lo : rf.last_included_index ≤ args.prev_log_index =
        ground (arith, entry_below rf args.prev_log_index) in
      let same_log = log-timed g now args rf in
      let same_index = index-timed g now args rf in
      let at_i : get_elem? t.log i ≡ some e =
        ground (arith, entry_at-eq rf args.prev_log_index lo, same_log) in
      (
        conflict g i e.log_term t reply,
        ground (arith, heartbeat-checked g now args rf e),
        Reports-cong t rf (i + t.last_included_index) args.prev_log_index e.log_term
            (conflict g i e.log_term t reply).reply same_log same_index (omega arith)
            (conflict-Reports g reply t i e at_i refl),
        λ k. ground (
          arith,
          entry_at-conflict g reply t i e.log_term k,
          same_log,
          same_index,
          entry_at-cong t rf k same_log same_index,
          length-first_term rf.log v.base,
        ),
      )
