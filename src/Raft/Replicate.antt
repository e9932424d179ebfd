-- ===== src/Raft/Replicate.antt =====
-- From `HeartBeatLauncher` of src/raft/raft.go on the leader to `HeartbeatHandler` on a follower:
-- what is sent, and what the follower holds once it has accepted.
use spring.Raft.Types.{Raft, Log, AppendEntriesArgs, Bytes}
use spring.Raft.Index.{entry_at, v2p_index}
use spring.Raft.Leader.{Slot, slot, slot_at, append_entries, message}
use spring.Raft.Valid.Slices.{entry_at-eq}
use spring.Common.{
  refl, ℕ, zero, suc, ℤ, pos, negsuc, ◌+◌, ◌-◌, arith, ◌≡◌, some, ◌<◌, [], ltb, if◌then◌else◌,
  get_elem?, drop, Option-cases, inl, inr,
}

-- What a slot for appending holds: it starts behind the entry before `NextIndex`.
pub record IsSlot (rf : Raft) (next term : ℕ) (s : Slot) : Type 0 where
  pub above : rf.last_included_index < next
  pub prev : s.prev_log_index ≡ next - 1
  pub checked : (e : Log) × (entry_at rf (next - 1) ≡ some e) × (e.log_term ≡ term)
  pub rest :
      s.entries
      ≡ (if ltb next rf.log_length then drop (next - rf.last_included_index) rf.log else [])

slot_at-IsSlot :
    (rf : Raft) (next term : ℕ) (k : ℤ) (s : Slot)
    → v2p_index rf next ≡ k
    → slot_at rf next k ≡ some s
    → s.prev_log_term ≡ some term
    → IsSlot rf next term s
unfolding slot_at
slot_at-IsSlot rf next term (negsuc i) s p h t = absurd (ground arith)
slot_at-IsSlot rf next term (pos zero) s p h t = absurd (ground arith)
slot_at-IsSlot rf next term (pos (suc i)) s p h t = elim (Option-cases (get_elem? rf.log i)) [
  | inl panic ↦ absurd (ground arith)
  | inr (e, here) ↦
      let where_next : next ≡ suc i + rf.last_included_index = ground arith in
      let shift : next - rf.last_included_index ≡ suc i = omega arith in
      record {
        above = omega arith;
        prev = ground arith;
        checked = (e, ground (arith, entry_at-eq rf (next - 1)), ground arith);
        rest = rw shift (ground arith);
      }
]

-- The filled slot of peer `i`, where `HeartBeatLauncher` chooses to append.
pub slot-IsSlot :
    (rf : Raft) (i next term : ℕ) (s : Slot)
    → get_elem? rf.next_index i ≡ some next
    → slot rf i ≡ some s
    → s.prev_log_term ≡ some term
    → IsSlot rf next term s
unfolding slot
slot-IsSlot rf i next term s n h t =
    slot_at-IsSlot rf next term (v2p_index rf next) s refl (ground arith) t

-- The message made of a slot for appending.
pub message-append :
    (rf : Raft) (snapdata : Bytes) (s : Slot) (args : AppendEntriesArgs)
    → message rf snapdata s ≡ append_entries args
    → (s.prev_log_term ≡ some args.prev_log_term)
      × (args.prev_log_index ≡ s.prev_log_index)
      × (args.entries ≡ s.entries)
      × (args.term ≡ rf.current_term)
unfolding message
message-append rf snapdata s args h = elim (Option-cases s.prev_log_term) [
  | inl gone ↦ absurd (ground arith)
  | inr (t, e) ↦ ground arith
]
