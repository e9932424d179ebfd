-- ===== src/Raft/Node/Recovery.antt =====
-- What a run of a peer of src/raft/raft.go keeps, and what a crash loses of it.
use spring.Common.{ℕ, ◌≡◌, some, List, ◌∙◌, sym, ◌<◌, ◌⊎◌, none}
use spring.Raft.Types.{Gob}
use spring.Raft.Valid.{IsValid}
use spring.Raft.Node.{Event, run, restart, Node, newborn}
use spring.Raft.Node.OneVote.{run-IsRight, newborn-IsRight}

module _ (g : Gob) (peers me : ℕ) (es : List Event) {n : Node}
    (ran : run g es (newborn g peers me) ≡ some n) where
  -- From an empty persister, in any sequence of steps that does not panic and whatever the
  -- messages hold, the slice of a peer is never empty, starts with the snapshot's last term, and
  -- `LogLength` is its length and the snapshot's index together.
  pub run-IsValid : IsValid n.peer
  run-IsValid = (run-IsRight g es (newborn g peers me) (newborn-IsRight g peers me) ran).sound.valid

  -- After any such sequence a crash and a restart bring back the log, the snapshot and its index
  -- and term as they are, and a ballot that is not later than the peer's: a term may be lost, a
  -- vote in the term that is kept is not changed for another.
  pub crash_recovers :
      let lost = restart g n.peer in
      (lost.log ≡ n.peer.log)
      × (lost.log_length ≡ n.peer.log_length)
      × (lost.last_included_index ≡ n.peer.last_included_index)
      × (lost.last_included_term ≡ n.peer.last_included_term)
      × (lost.snapshot_data ≡ n.peer.snapshot_data)
      × ((lost.current_term < n.peer.current_term)
          ⊎ ((lost.current_term ≡ n.peer.current_term)
              × ((lost.voted_for ≡ none) ⊎ (lost.voted_for ≡ n.peer.voted_for))))
  crash_recovers =
      let s = (run-IsRight g es (newborn g peers me) (newborn-IsRight g peers me) ran).sound in
      let d = s.durable in
      let v = s.valid in
      (
        d.log,
        d.log_length ∙ sym v.measured,
        d.last_included_index,
        d.last_included_term,
        d.snapshot_data,
        d.ballot,
      )
