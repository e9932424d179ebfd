-- ===== src/Raft/Valid.antt =====
-- The well-formed peers of src/raft/raft.go: the slice holds the entries from the snapshot's last
-- one on, and `LogLength` is the global length.
pub mod Slices
pub mod Steps
use spring.Common.{ℕ, ◌+◌, Option, none, some, List, [], ◌∷◌, ◌≡◌, length}
use spring.Raft.Types.{Raft, Log}

abbrev pub first_term : List Log → Option ℕ
first_term [] = none
first_term (e ∷ es) = some e.log_term

-- The first entry of the slice stands for the snapshot: it has the snapshot's last term.
pub record IsValid (rf : Raft) : Type 0 where
  pub base : first_term rf.log ≡ some rf.last_included_term
  pub measured : rf.log_length ≡ length rf.log + rf.last_included_index
