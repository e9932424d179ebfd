-- ===== src/Raft/Node/Durable.antt =====
-- What a crash loses: the state that `Make` reads back after `persist`.
use spring.Common.{
  Bool, true, false, if◌then◌else◌, ◌+◌, ◌<◌, ◌≡◌, ◌⊎◌, refl, none, [], ◌∷◌, length, arith, true,
  false,
}
use spring.Raft.Types.{Raft, Gob, Bytes, Persistent}
use spring.Raft.Persist.{persist, make, persistent, is_empty}
use spring.Raft.Node.{restart}

-- The order of ballots: a later term, or the same term with the vote given or kept.
abbrev pub Later : Raft → Raft → Type 0
Later a b =
    (a.current_term < b.current_term)
    ⊎ ((a.current_term ≡ b.current_term) × ((a.voted_for ≡ none) ⊎ (a.voted_for ≡ b.voted_for)))

-- After a crash the log and the snapshot are those before it, and the ballot is no later.
pub record IsDurable (g : Gob) (rf : Raft) : Type 0 where
  pub log : (restart g rf).log ≡ rf.log
  pub log_length : (restart g rf).log_length ≡ length rf.log + rf.last_included_index
  pub last_included_index : (restart g rf).last_included_index ≡ rf.last_included_index
  pub last_included_term : (restart g rf).last_included_term ≡ rf.last_included_term
  pub snapshot_data : (restart g rf).snapshot_data ≡ rf.snapshot_data
  pub ballot : Later (restart g rf) rf

module _ (g : Gob) where
  encode_is_empty : (p : Persistent) → is_empty (g.encode p) ≡ false
  encode_is_empty p = ground (arith, g.encode-pos p)

  empty_snapshot : (xs : Bytes) → is_empty xs ≡ true → xs ≡ []
  empty_snapshot [] h = refl
  empty_snapshot (x ∷ xs) h = absurd (ground arith)

  -- `Make` after `persist`: every value that was encoded, and the snapshot, come back.
  pub make-persist :
      (rf : Raft)
      → let rf' = make g rf.peers rf.me (persist g rf).persister in
        (persistent rf' ≡ persistent rf)
        × (rf'.snapshot_data ≡ rf.snapshot_data)
        × (rf'.log_length ≡ length rf.log + rf.last_included_index)
  unfolding make persist
  make-persist rf = ground (
    arith,
    encode_is_empty (persistent rf),
    g.decode-encode (persistent rf),
    empty_snapshot rf.snapshot_data,
  )

  -- What is persisted is durable.
  pub persist-IsDurable : (rf : Raft) → IsDurable g (persist g rf)
  unfolding persist
  persist-IsDurable rf = ground (arith, make-persist rf)

  pub Later-refl : (rf : Raft) → Later rf rf
  Later-refl rf = ground arith

  pub Later-trans : (a b c : Raft) → Later a b → Later b c → Later a c
  Later-trans a b c p q = ground arith

-- Two peers agree on all that a crash keeps.
pub record SameSaved (a b : Raft) : Type 0 where
  pub persister : b.persister ≡ a.persister
  pub peers : b.peers ≡ a.peers
  pub me : b.me ≡ a.me
  pub log : b.log ≡ a.log
  pub last_included_index : b.last_included_index ≡ a.last_included_index
  pub last_included_term : b.last_included_term ≡ a.last_included_term
  pub snapshot_data : b.snapshot_data ≡ a.snapshot_data

restart-same : (g : Gob) (a b : Raft) → SameSaved a b → restart g b ≡ restart g a
restart-same g a b s = cc (s.peers, s.me, s.persister)

pub SameSaved-IsDurable :
    (g : Gob) (a b : Raft) → SameSaved a b → Later a b → IsDurable g a → IsDurable g b
SameSaved-IsDurable g a b s l d = ground (arith, restart-same g a b s)

-- How a step moves a peer: what is saved stays recoverable, and ballots only get later, both the
-- peer's own and the one that a crash would bring back.
pub record Moves (g : Gob) (a b : Raft) : Type 0 where
  pub durable : IsDurable g b
  pub own : Later a b
  pub saved : Later (restart g a) (restart g b)

module _ (g : Gob) (a : Raft) (d : IsDurable g a) where
  -- A step that persists at its end.
  pub Moves-persist : (b : Raft) → Later a b → Moves g a (persist g b)
  unfolding persist
  Moves-persist b l = record {
    durable = persist-IsDurable g b;
    own = ground arith;
    saved = ground (arith, make-persist g b);
  }

  -- A step that writes nothing that is saved.
  pub Moves-same : (b : Raft) → SameSaved a b → Later a b → Moves g a b
  Moves-same b s l = record {
    durable = SameSaved-IsDurable g a b s l d;
    own = l;
    saved = ground (arith, restart-same g a b s);
  }

  -- Writes that are not saved may follow.
  pub Moves-after : (b c : Raft) → Moves g a b → SameSaved b c → Later b c → Moves g a c
  Moves-after b c m s l = record {
    durable = SameSaved-IsDurable g b c s l m.durable;
    own = Later-trans g a b c m.own l;
    saved = ground (arith, restart-same g b c s, m.saved);
  }

  pub Moves-if :
      (t : Bool) (b c : Raft)
      → (t ≡ true → Moves g a b)
      → (t ≡ false → Moves g a c)
      → Moves g a (if t then b else c)
  Moves-if true b c p q = p refl
  Moves-if false b c p q = q refl

pub Moves-trans : (g : Gob) (a b c : Raft) → Moves g a b → Moves g b c → Moves g a c
Moves-trans g a b c m n = record {
  durable = n.durable;
  own = Later-trans g a b c m.own n.own;
  saved = Later-trans g (restart g a) (restart g b) (restart g c) m.saved n.saved;
}

pub Moves-eq : (g : Gob) (a b c : Raft) → Moves g a b → c ≡ b → Moves g a c
Moves-eq g a b c m e = rw e m
