-- ===== src/Raft/Commit/Counts.antt =====
-- The count of the peers that hold an entry, in `SendHeartbeat` of src/raft/raft.go.
use spring.Raft.Types.{Raft, Log}
use spring.Raft.Index.{entry_at}
use spring.Common.{
  ℕ, zero, suc, ◌+◌, ◌/◌, arith, ◌≡◌, ◌≢◌, refl, some, none, ◌≤◌, ◌<◌, List, [], ◌∷◌, leb, ◌==◌,
  if◌then◌else◌, get_elem?, Option,
}
use spring.Raft.Leader.{replicated, count_from}
use spring.Raft.Valid.Slices.{entry_below}

-- More than half of the peers hold entry `n`, by what the leader has counted.
abbrev pub HasMajority : Raft → ℕ → Type 0
HasMajority rf n = (c : ℕ) × (count_from rf n 0 rf.match_index ≡ some c) × (rf.peers / 2 < c)

module _ (rf : Raft) (n : ℕ) where
  -- The count does not panic where the entry is there.
  pub count_from-some :
      (e : Log) (j : ℕ) (ms : List (Option ℕ))
      → entry_at rf n ≡ some e
      → (c : ℕ) × (count_from rf n j ms ≡ some c)
  unfolding count_from replicated
  count_from-some e j [] h = (0, refl)
  count_from-some e j (none ∷ ms) h =
      let (c, p) = count_from-some e (j + 1) ms h in
      ((if j == rf.me then suc c else c), ground arith)
  count_from-some e j (some m ∷ ms) h =
      let (c, p) = count_from-some e (j + 1) ms h in
      (
        (if j == rf.me
            then suc c
            else if leb n m
            then (if e.log_term == rf.current_term then suc c else c)
            else c),
        ground arith,
      )

  -- An entry of another term is counted for the leader alone.
  pub count_from-old :
      (e : Log) (j : ℕ) (ms : List (Option ℕ)) (c : ℕ)
      → entry_at rf n ≡ some e
      → e.log_term ≢ rf.current_term
      → count_from rf n j ms ≡ some c
      → c ≤ (if leb j rf.me then 1 else 0)
  unfolding count_from replicated
  count_from-old e j [] c h ne p = ground arith
  count_from-old e j (m ∷ ms) c h ne p =
      let (d, q) = count_from-some e (j + 1) ms h in
      let bound = count_from-old e (j + 1) ms d h ne q in ground arith

  -- Below the snapshot the count panics at the first other peer that is ahead.
  pub count_from-below :
      (j i m : ℕ) (ms : List (Option ℕ))
      → n < rf.last_included_index
      → get_elem? ms i ≡ some (some m)
      → n ≤ m
      → j + i ≢ rf.me
      → count_from rf n j ms ≡ none
  unfolding count_from replicated
  count_from-below j i m [] lt h le ne = absurd (cc h)
  count_from-below j zero m (x ∷ ms) lt h le ne = ground (arith, entry_below rf n lt)
  count_from-below j (suc i) m (x ∷ ms) lt h le ne =
      ground (arith, count_from-below (j + 1) i m ms lt h le)
