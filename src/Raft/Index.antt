-- ===== src/Raft/Index.antt =====
-- The index helpers of src/raft/raft.go. Global indices count every entry since the first; the
-- slice starts at `last_included_index`.
use spring.Common.{
  ℕ, ◌+◌, Bool, true, false, List, Option, none, ℤ, sub_ℕ, at, ltb, if◌then◌else◌, get_elem?, zero,
  suc,
}
use spring.Raft.Types.{Raft, State, leader, follower, candidate, Log}

abbrev pub v2p_index : Raft → ℕ → ℤ
v2p_index rf idx = sub_ℕ idx rf.last_included_index

abbrev pub p2v_index : Raft → ℕ → ℕ
p2v_index rf idx = idx + rf.last_included_index

abbrev pub min_int : ℕ → ℕ → ℕ
min_int a b = if ltb b a then b else a

abbrev pub max_int : ℕ → ℕ → ℕ
max_int a b = if ltb b a then a else b

abbrev pub is_leader : State → Bool
is_leader leader = true
is_leader follower = false
is_leader candidate = false

abbrev pub is_follower : State → Bool
is_follower follower = true
is_follower leader = false
is_follower candidate = false

abbrev pub get_state : Raft → ℕ × Bool
get_state rf = (rf.current_term, is_leader rf.state)

-- `rf.Log[rf.V2PIndex(idx)]`
unfoldable pub entry_at : Raft → ℕ → Option Log
entry_at rf idx = at rf.log (v2p_index rf idx)

-- `rf.Log[rf.V2PIndex(rf.LogLength)-1]`, the last entry. An index below 0 panics.
abbrev pub before : ℤ → List Log → Option Log
before (ℤ.pos (suc i)) log = get_elem? log i
before (ℤ.pos zero) log = none
before (ℤ.negsuc i) log = none

unfoldable pub last_entry : Raft → Option Log
last_entry rf = before (v2p_index rf rf.log_length) rf.log
