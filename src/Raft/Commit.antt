-- ===== src/Raft/Commit.antt =====
-- How the leader of src/raft/raft.go moves its commit index: the loop in `SendHeartbeat`.
pub mod Counts
use spring.Raft.Commit.Counts.{HasMajority, count_from-some, count_from-old, count_from-below}
use native.Mathlib.Decide.{ℕ_discrete}
use spring.Raft.Types.{Raft, Log}
use spring.Raft.Index.{entry_at}
use spring.Common.{
  ℕ, zero, suc, ◌+◌, ◌-◌, ◌/◌, arith, ◌≡◌, ◌≢◌, refl, some, none, ◌≤◌, ◌<◌, List, [], ◌∷◌, leb, ltb,
  if◌then◌else◌, get_elem?, Bool-cases, inl, inr, true, false, Option,
}
use spring.Raft.Leader.{Handled, quiet, replicated, count_from, commit_scan}
use spring.Raft.Valid.{IsValid}
use spring.Raft.Valid.Slices.{entry_at-some, entry_below}

-- What the loop from `n` down finds.
pub record Found (rf : Raft) (n m : ℕ) : Type 0 where
  pub newer : rf.commit_index < m
  pub inside : m ≤ n
  pub majority : HasMajority rf m
  pub highest : (k : ℕ) → m < k → k ≤ n → ¬ HasMajority rf k

-- A majority holds no entry above the commit index up to `n`.
abbrev pub NoMajority : Raft → ℕ → Type 0
NoMajority rf n = (k : ℕ) → rf.commit_index < k → k ≤ n → ¬ HasMajority rf k

module _ (rf : Raft) (v : IsValid rf) (kept : rf.last_included_index ≤ rf.commit_index) where
  -- The loop ends without a panic where the commit index is not below the snapshot.
  pub commit_scan_total :
      (n : ℕ) → n < rf.log_length → (found : Option ℕ) × (commit_scan rf n ≡ some found)
  unfolding commit_scan
  commit_scan_total zero h = (none, refl)
  commit_scan_total (suc n) h = elim (Bool-cases (ltb rf.commit_index (suc n))) [
    | inl above ↦
        let (e, here) = entry_at-some rf (suc n) v (ground arith) h in
        let (c, counted) = count_from-some rf (suc n) e 0 rf.match_index here in
        let (found, lower) = commit_scan_total n (omega arith) in
        ((if ltb (rf.peers / 2) c then some (suc n) else found), ground arith)
    | inr below ↦ (none, ground arith)
  ]

  counted_few :
      (n c : ℕ)
      → count_from rf n 0 rf.match_index ≡ some c
      → ltb (rf.peers / 2) c ≡ false
      → ¬ HasMajority rf n
  counted_few n c counted few (d, again, many) = ground arith

  Found-later : (n m : ℕ) → ¬ HasMajority rf (suc n) → Found rf n m → Found rf (suc n) m
  Found-later n m few f = record {
    newer = f.newer;
    inside = let inside = f.inside in omega arith;
    majority = f.majority;
    highest = λ k lo hi. elim (ℕ_discrete k (suc n)) [
      | yes e ↦ rw e few
      | no ne ↦ f.highest k lo (omega arith)
    ];
  }

  Found-here :
      (n c : ℕ)
      → rf.commit_index < n
      → count_from rf n 0 rf.match_index ≡ some c
      → rf.peers / 2 < c
      → Found rf n n
  Found-here n c above counted many = record {
    newer = above;
    inside = omega arith;
    majority = (c, counted, many);
    highest = λ k lo hi. absurd (omega arith);
  }

  -- Where the loop stops at an index, that index is the highest above the commit index that a
  -- majority holds.
  pub commit_scan_finds :
      (n m : ℕ) → n < rf.log_length → commit_scan rf n ≡ some (some m) → Found rf n m
  unfolding commit_scan
  commit_scan_finds zero m h p = absurd (ground arith)
  commit_scan_finds (suc n) m h p = elim (Bool-cases (ltb rf.commit_index (suc n))) [
    | inl above ↦
        let (e, here) = entry_at-some rf (suc n) v (ground arith) h in
        let (c, counted) = count_from-some rf (suc n) e 0 rf.match_index here in
        elim (Bool-cases (ltb (rf.peers / 2) c)) [
          | inl many ↦
              let stops : m ≡ suc n = ground arith in
              rw stops (Found-here (suc n) c (ground arith) counted (ground arith))
          | inr few ↦
              Found-later n m (counted_few (suc n) c counted few)
                (commit_scan_finds n m (omega arith) (ground arith))
        ]
    | inr below ↦ absurd (ground arith)
  ]

  NoMajority-suc : (n : ℕ) → ¬ HasMajority rf (suc n) → NoMajority rf n → NoMajority rf (suc n)
  NoMajority-suc n few lower k lo hi = elim (ℕ_discrete k (suc n)) [
    | yes e ↦ rw e few
    | no ne ↦ lower k lo (omega arith)
  ]

  -- Where the loop comes down to the commit index, a majority holds no entry above it.
  pub commit_scan_misses :
      (n : ℕ) → n < rf.log_length → commit_scan rf n ≡ some none → NoMajority rf n
  unfolding commit_scan
  commit_scan_misses zero h p k lo hi = absurd (omega arith)
  commit_scan_misses (suc n) h p k lo hi = elim (Bool-cases (ltb rf.commit_index (suc n))) [
    | inl above ↦
        let (e, here) = entry_at-some rf (suc n) v (ground arith) h in
        let (c, counted) = count_from-some rf (suc n) e 0 rf.match_index here in
        elim (Bool-cases (ltb (rf.peers / 2) c)) [
          | inl many ↦ absurd (ground arith)
          | inr few ↦
              NoMajority-suc n (counted_few (suc n) c counted few)
                (commit_scan_misses n (omega arith) (ground arith)) k lo hi
        ]
    | inr below ↦ absurd (ground arith)
  ]

  -- A majority counts only entries of the leader's own term, in a cluster of two or more.
  pub majority_term :
      (n : ℕ) (e : Log)
      → 2 ≤ rf.peers
      → entry_at rf n ≡ some e
      → HasMajority rf n
      → e.log_term ≡ rf.current_term
  majority_term n e two here (c, counted, many) = elim (ℕ_discrete e.log_term rf.current_term) [
    | yes same ↦ same
    | no ne ↦ absurd (ground (arith, count_from-old rf n e 0 rf.match_index c here ne counted))
  ]

-- What a leader's commit index may become, by the counts of the peer `rf`.
pub record Commits (rf : Raft) (out : Handled) : Type 0 where
  pub newer : rf.commit_index < out.peer.commit_index
  pub found : Found rf (rf.log_length - 1) out.peer.commit_index
  pub own_term :
      (e : Log) × (entry_at rf out.peer.commit_index ≡ some e) × (e.log_term ≡ rf.current_term)
  pub applied : rf.last_included_index ≤ out.peer.last_applied
  pub log : out.peer.log ≡ rf.log

-- What the leader's loop over the counts gives: a commit at the highest entry that a majority
-- holds, or no change where a majority holds none above the commit index.
pub data CommitOutcome (rf : Raft) (out : Handled) : Type 0 where
  commits : out.broadcast ≡ true → Commits rf out → CommitOutcome rf out
  waits : out ≡ quiet rf → NoMajority rf (rf.log_length - 1) → CommitOutcome rf out

-- A peer that restarts from a snapshot starts at commit index 0. As leader it panics where the
-- loop comes down to an index below the snapshot that another peer has reached.
pub commit_scan_panics :
    (rf : Raft) (n i m : ℕ)
    → rf.commit_index < suc n
    → suc n < rf.last_included_index
    → get_elem? rf.match_index i ≡ some (some m)
    → suc n ≤ m
    → i ≢ rf.me
    → commit_scan rf (suc n) ≡ none
unfolding commit_scan
commit_scan_panics rf n i m above low here ahead other =
    ground (arith, count_from-below rf (suc n) 0 i m rf.match_index low here ahead)
