-- ===== src/Raft/Compact.antt =====
-- Snapshots in src/raft/raft.go: what `Snapshot` and `InstallSnapshot` leave of the log.
use native.Mathlib.Decide.{dec_lt}
use spring.Raft.Types.{Raft, Gob, Log, SnapshotArgs, snapshot_msg}
use spring.Raft.Index.{entry_at, v2p_index, max_int}
use spring.Raft.Persist.{persist}
use spring.Raft.Vote.{enter_term}
use spring.Raft.Snapshot.{install_snapshot, has_entry, install}
use spring.Raft.Valid.{IsValid}
use spring.Raft.Receive.Accepted.{entry_at-cong}
use spring.Common.{
  sub_ℕ-negsuc, ℕ, zero, suc, ◌+◌, ◌-◌, arith, ◌≡◌, refl, some, none, ◌≤◌, [], ◌∷◌, ltb, ◌==◌,
  if◌then◌else◌, drop, get_elem?, get_elem?-drop, Bool-cases, inl, inr, true, false, Option, Bool,
  sub_ℕ-pos,
}
use spring.Raft.Valid.Slices.{entry_beyond, entry_at-eq, entry_at-some, entry_below}

-- Entries of a slice that drops its first `i` and starts `i` later.
entry_at-cut :
    (a b : Raft) (i k : ℕ)
    → b.log ≡ drop i a.log
    → b.last_included_index ≡ i + a.last_included_index
    → entry_at b k ≡ (if ltb k (i + a.last_included_index) then none else entry_at a k)
entry_at-cut a b i k p q = elim (dec_lt k (i + a.last_included_index)) [
  | yes h ↦ ground (arith, entry_below b k)
  | no h ↦
      let shift : i + (k - b.last_included_index) ≡ k - a.last_included_index = omega arith in
      ground (
        arith,
        entry_at-eq b k,
        entry_at-eq a k,
        get_elem?-drop i a.log (k - b.last_included_index),
        shift,
      )
]

-- What `InstallSnapshot` keeps of a log that holds the snapshot's last entry.
abbrev pub holds_last : SnapshotArgs → Raft → Bool
holds_last args rf = elim (entry_at rf args.last_included_index) [
  | none ↦ false
  | some e ↦ e.log_term == args.last_included_term
]

has_entry-eq :
    (args : SnapshotArgs) (rf : Raft)
    → IsValid rf
    → has_entry args rf (v2p_index rf args.last_included_index)
      ≡ some (
          if holds_last args rf
          then some (args.last_included_index - rf.last_included_index)
          else none)
unfolding has_entry
has_entry-eq args rf v = elim (dec_lt args.last_included_index rf.last_included_index) [
  | yes below ↦ ground (
    arith,
    entry_below rf args.last_included_index below,
    sub_ℕ-negsuc args.last_included_index rf.last_included_index below,
  )
  | no lo ↦ elim (dec_lt args.last_included_index rf.log_length) [
    | yes hi ↦
        let (e, here) = entry_at-some rf args.last_included_index v (omega arith) hi in
        ground (
          arith,
          here,
          sub_ℕ-pos args.last_included_index rf.last_included_index,
          entry_at-eq rf args.last_included_index,
        )
    | no beyond ↦ ground (
      arith,
      entry_beyond rf args.last_included_index v,
      sub_ℕ-pos args.last_included_index rf.last_included_index,
    )
  ]
]

single_get : (x : Log) (n : ℕ) → get_elem? (x ∷ []) n ≡ (if n == 0 then some x else none)
single_get x zero = ground arith
single_get x (suc n) = ground arith

-- The only entry of a slice of one.
entry_at-single :
    (b : Raft) (x : Log) (k : ℕ)
    → b.log ≡ x ∷ []
    → entry_at b k ≡ (
        if ltb k b.last_included_index
        then none
        else if k == b.last_included_index
        then some x
        else none)
unfolding entry_at
entry_at-single b x k h = elim (dec_lt k b.last_included_index) [
  | yes below ↦ ground arith
  | no above ↦
      ground (arith, sub_ℕ-pos k b.last_included_index, single_get x (k - b.last_included_index))
]

holds_from :
    (args : SnapshotArgs) (rf : Raft)
    → holds_last args rf ≡ true
    → rf.last_included_index ≤ args.last_included_index
holds_from args rf h = ground (arith, entry_below rf args.last_included_index)

-- The peer when the log is looked at.
abbrev taken : ℕ → SnapshotArgs → Raft → Raft
taken now args rf = record (enter_term args.term rf) { last_rpc = now }

abbrev kept_at : SnapshotArgs → Raft → Option ℕ
kept_at args rf =
    if holds_last args rf then some (args.last_included_index - rf.last_included_index) else none

has_entry-taken :
    (now : ℕ) (args : SnapshotArgs) (rf : Raft)
    → IsValid rf
    → let t = taken now args rf in
      has_entry args t (v2p_index t args.last_included_index) ≡ some (kept_at args rf)
has_entry-taken now args rf v =
    let t = taken now args rf in
    ground (
      arith,
      has_entry-eq args t (ground arith),
      entry_at-cong t rf args.last_included_index (ground arith) (ground arith),
    )

-- The entries of the log after a snapshot is installed.
abbrev pub installed_entry : SnapshotArgs → Raft → ℕ → Option Log
installed_entry args rf k =
    if ltb k args.last_included_index
    then none
    else if holds_last args rf
    then entry_at rf k
    else if k == args.last_included_index
    then some (record { log_term = args.last_included_term; command = 0 })
    else none

module _ (g : Gob) (now : ℕ) (args : SnapshotArgs) (rf : Raft) (v : IsValid rf) where
  entry_at-installed :
      (k : ℕ)
      → entry_at (persist g (install args (taken now args rf) (kept_at args rf))) k
        ≡ installed_entry args rf k
  unfolding persist
  entry_at-installed k =
      let b = persist g (install args (taken now args rf) (kept_at args rf)) in
      elim (Bool-cases (holds_last args rf)) [
        | inl holds ↦ ground (
          arith,
          holds_from args rf holds,
          entry_at-cut rf b (args.last_included_index - rf.last_included_index) k,
        )
        | inr lacks ↦ ground (
          arith,
          entry_at-single b (record { log_term = args.last_included_term; command = 0 }) k,
        )
      ]

  -- `InstallSnapshot` of a term that is not older never panics: whether the snapshot is newer than
  -- the peer's own or older, the peer takes over its index, term and data and delivers it once;
  -- it keeps what it has behind the snapshot if it holds the snapshot's last entry, and else drops
  -- its whole log; the commit and applied indices only grow.
  pub install_snapshot_lem :
      rf.current_term ≤ args.term
      → (rf' : Raft) × (install_snapshot g now args rf
          ≡ some (
            rf',
            record { term = rf.current_term },
            snapshot_msg args.snapdata args.last_included_term args.last_included_index ∷ [],
          ))
        × ((k : ℕ) → entry_at rf' k ≡ installed_entry args rf k)
        × (rf'.last_included_index ≡ args.last_included_index)
        × (rf'.last_included_term ≡ args.last_included_term)
        × (rf'.snapshot_data ≡ args.snapdata)
        × (rf'.current_term ≡ args.term)
        × (rf'.commit_index ≡ max_int rf.commit_index args.last_included_index)
        × (rf'.last_applied ≡ max_int rf.last_applied args.last_included_index)
  unfolding install_snapshot persist
  install_snapshot_lem h = (
    persist g (install args (taken now args rf) (kept_at args rf)),
    ground (arith, has_entry-taken now args rf v),
    entry_at-installed,
    refl,
    refl,
    refl,
    ground arith,
    ground arith,
    ground arith,
  )
