-- ===== src/Raft/Delivery.antt =====
-- `ApplyGoroutine` and `Start` of src/raft/raft.go: what is delivered, and what is appended.
use native.Mathlib.Decide.{dec_lt}
use spring.Raft.Types.{Raft, Gob, Log, ApplyMsg, command_msg, Command}
use spring.Raft.Index.{entry_at, max_int, is_leader}
use spring.Raft.Persist.{persist}
use spring.Raft.Apply.{apply_step, apply_all}
use spring.Raft.Leader.{start, appended}
use spring.Raft.Valid.{IsValid}
use spring.Raft.Valid.Slices.{entry_at-eq, entry_at-some, entry_below}
use spring.Raft.Receive.Accepted.{entry_at-cong}
use spring.Common.{
  ◌++◌, ◌⊎◌, ◌&&◌, ℕ, zero, suc, ◌+◌, ◌-◌, arith, ◌≡◌, refl, some, none, ◌≤◌, ◌<◌, List, [], ◌∷◌,
  ◌==◌, if◌then◌else◌, length, get_elem?, ◌∙◌, ap, Bool-cases, inl, inr, true, Option, false,
}

-- The message for the entry at a global index.
abbrev message_of : ℕ → Option Log → Option ApplyMsg
message_of k none = none
message_of k (some e) = some (command_msg e.command k)

abbrev pub delivery : Raft → ℕ → Option ApplyMsg
delivery rf k = message_of k (entry_at rf k)

-- The messages of a run of the goroutine, by their positions.
pub record Delivers (rf rf' : Raft) (msgs : List ApplyMsg) : Type 0 where
  pub applied : rf'.last_applied ≡ max_int rf.last_applied rf.commit_index
  pub count : length msgs ≡ rf.commit_index - rf.last_applied
  pub each :
      (i : ℕ)
      → i < rf.commit_index - rf.last_applied
      → get_elem? msgs i ≡ delivery rf (rf.last_applied + 1 + i)

Delivers-none : (rf : Raft) → rf.commit_index ≤ rf.last_applied → Delivers rf rf []
Delivers-none rf h = record {
  applied = ground arith;
  count = omega arith;
  each = λ i lt. absurd (omega arith);
}

abbrev applied_one : Raft → Raft
applied_one rf = record rf { last_applied = rf.last_applied + 1 }

delivery-applied : (rf : Raft) (k : ℕ) → delivery (applied_one rf) k ≡ delivery rf k
unfolding entry_at
delivery-applied rf k = refl

Delivers-more :
    (rf rf' : Raft) (e : Log) (msgs : List ApplyMsg)
    → rf.last_applied < rf.commit_index
    → entry_at rf (rf.last_applied + 1) ≡ some e
    → Delivers (applied_one rf) rf' msgs
    → Delivers rf rf' (command_msg e.command (rf.last_applied + 1) ∷ msgs)
Delivers-more rf rf' e msgs lt here d = record {
  applied = ground (arith, d.applied);
  count = let count = d.count in omega arith;
  each = each;
}
  where
    each :
        (i : ℕ)
        → i < rf.commit_index - rf.last_applied
        → get_elem? (command_msg e.command (rf.last_applied + 1) ∷ msgs) i
          ≡ delivery rf (rf.last_applied + 1 + i)
    each zero h =
        let here_index : rf.last_applied + 1 + 0 ≡ rf.last_applied + 1 = omega arith in
        rw here_index (rw here)
    each (suc i) h =
        d.each i (omega arith)
        ∙ delivery-applied rf (rf.last_applied + 1 + 1 + i)
        ∙ ap (delivery rf) (omega arith)

-- At a peer that is not killed, from a commit index inside the log, and nothing unapplied below the
-- snapshot, the goroutine comes to wait within as many rounds as there are entries to apply and one
-- more, if no other step comes between its rounds; it has then delivered the command of every entry
-- behind the applied index up to the commit index, once and in order.
pub apply_all_lem :
    (fuel : ℕ) (rf : Raft)
    → IsValid rf
    → rf.dead ≡ false
    → rf.last_included_index ≤ rf.last_applied
    → rf.commit_index < rf.log_length
    → rf.commit_index - rf.last_applied < fuel
    → (rf' : Raft) × (msgs : List ApplyMsg) × (apply_all fuel rf ≡ some (rf', msgs))
      × Delivers rf rf' msgs
unfolding apply_all apply_step
apply_all_lem zero rf v alive lo hi h = absurd (omega arith)
apply_all_lem (suc fuel) rf v alive lo hi h = elim (dec_lt rf.last_applied rf.commit_index) [
  | no done ↦ (rf, [], ground arith, Delivers-none rf (omega arith))
  | yes more ↦
      let (e, here) = entry_at-some rf (rf.last_applied + 1) v (omega arith) (omega arith) in
      let (rf', msgs, ran, d) =
        apply_all_lem fuel (applied_one rf) (ground arith) alive (omega arith) hi (omega arith) in
      (
        rf',
        command_msg e.command (rf.last_applied + 1) ∷ msgs,
        ground (arith, entry_at-cong (applied_one rf) rf (rf.last_applied + 1)),
        Delivers-more rf rf' e msgs more here d,
      )
]

get_elem?-snoc {ℓ} :
    {A : Type ℓ} (xs : List A) (x : A) (n : ℕ)
    → get_elem? (xs ++ (x ∷ [])) n ≡ (if n == length xs then some x else get_elem? xs n)
get_elem?-snoc [] x zero = ground arith
get_elem?-snoc [] x (suc n) = ground arith
get_elem?-snoc (y ∷ xs) x zero = ground arith
get_elem?-snoc (y ∷ xs) x (suc n) = ground (arith, get_elem?-snoc xs x n)

abbrev pub new_entry : Command → Raft → Log
new_entry c rf = record { log_term = rf.current_term; command = c }

entry_at-appended :
    (c : Command) (rf : Raft) (k : ℕ)
    → IsValid rf
    → entry_at (appended c rf) k
      ≡ (if k == rf.log_length then some (new_entry c rf) else entry_at rf k)
entry_at-appended c rf k v = elim (dec_lt k rf.last_included_index) [
  | yes below ↦ ground (arith, entry_below rf k below, entry_below (appended c rf) k below)
  | no above ↦ ground (
    arith,
    entry_at-eq rf k,
    entry_at-eq (appended c rf) k,
    get_elem?-snoc rf.log (new_entry c rf) (k - rf.last_included_index),
  )
]

-- `Start` on a leader appends the command in the leader's term at the end of the log, leaves every
-- other entry, and returns the index at which the command now stands and the term; on any other
-- peer it changes nothing and returns no index.
pub start_lem :
    (g : Gob) (c : Command) (rf : Raft) (k : ℕ)
    → IsValid rf
    → let (rf', index) = start g c rf in
      (entry_at rf' k ≡ (
        if is_leader rf.state && (k == rf.log_length)
        then some (new_entry c rf)
        else entry_at rf k))
      × (index ≡ (if is_leader rf.state then some (rf.log_length, rf.current_term) else none))
      × ((is_leader rf.state ≡ true) ⊎ (rf' ≡ rf))
unfolding start persist
start_lem g c rf k v = elim (Bool-cases (is_leader rf.state)) [
  | inl leads ↦ ground (
    arith,
    entry_at-appended c rf k v,
    entry_at-cong (persist g (appended c rf)) (appended c rf) k,
  )
  | inr waits ↦ ground arith
]
