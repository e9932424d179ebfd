-- ===== src/Raft/Persist.antt =====
-- `persist`, `readPersist`, `Make` and `Kill` of src/raft/raft.go, and src/raft/persister.go.
use spring.Common.{
  ℕ, ◌+◌, [], ◌∷◌, Option, none, some, Bool, true, false, length, ◌==◌, if◌then◌else◌,
}
use spring.Raft.Types.{Raft, Persister, Persistent, Gob, Bytes, follower}

abbrev pub make_persister : Persister
make_persister = record { raftstate = []; snapshot = [] }

-- `Save` stores clones; a clone of a value is that value.
unfoldable pub save : Persister → Bytes → Bytes → Persister
save ps raftstate snapshot = record { raftstate = raftstate; snapshot = snapshot }

unfoldable pub copy : Persister → Persister
copy ps = record make_persister { raftstate = ps.raftstate; snapshot = ps.snapshot }

unfoldable pub read_raft_state : Persister → Bytes
read_raft_state ps = ps.raftstate

unfoldable pub read_snapshot : Persister → Bytes
read_snapshot ps = ps.snapshot

pub raft_state_size : Persister → ℕ
raft_state_size ps = length ps.raftstate

pub snapshot_size : Persister → ℕ
snapshot_size ps = length ps.snapshot

abbrev pub persistent : Raft → Persistent
persistent rf = record {
  current_term = rf.current_term;
  voted_for = rf.voted_for;
  log = rf.log;
  last_included_index = rf.last_included_index;
  last_included_term = rf.last_included_term;
}

unfoldable pub kill : Raft → Raft
kill rf = record rf { dead = true }

unfoldable pub killed : Raft → Bool
killed rf = rf.dead

-- The peer that `Make` builds before it reads the persisted state.
abbrev pub boot : ℕ → ℕ → Persister → Raft
boot peers me persister = record {
  current_term = 0;
  commit_index = 0;
  last_applied = 0;
  peers = peers;
  me = me;
  voted_for = none;
  state = follower;
  last_rpc = 0;
  log = record { log_term = 0; command = 0 } ∷ [];
  next_index = [];
  match_index = [];
  log_length = 1;
  dead = false;
  snapshot_data = [];
  last_included_index = 0;
  last_included_term = 0;
  persister = persister;
}

-- The fields that `readPersist` takes over from the decoded values.
abbrev pub restore : Raft → Persistent → Raft
restore rf p = record rf {
  current_term = p.current_term;
  voted_for = p.voted_for;
  log = p.log;
  log_length = length p.log + p.last_included_index;
  last_included_index = p.last_included_index;
  last_included_term = p.last_included_term;
}

abbrev pub is_empty : Bytes → Bool
is_empty xs = length xs == 0

module _ (g : Gob) where
  unfoldable pub persist : Raft → Raft
  unfolding save
  persist rf = record rf {
    persister = save rf.persister (g.encode (persistent rf)) rf.snapshot_data;
  }

  abbrev read_decoded : Raft → Option Persistent → Bytes → Raft
  read_decoded rf none snapshot = rf
  read_decoded rf (some p) snapshot =
      if is_empty snapshot then restore rf p else record (restore rf p) { snapshot_data = snapshot }

  unfoldable pub read_persist : Raft → Bytes → Bytes → Raft
  read_persist rf raftdata snapshot =
      if is_empty raftdata then rf else read_decoded rf (g.decode raftdata) snapshot

  unfoldable pub make : ℕ → ℕ → Persister → Raft
  unfolding read_persist read_raft_state read_snapshot
  make peers me persister =
      read_persist (boot peers me persister) (read_raft_state persister) (read_snapshot persister)
