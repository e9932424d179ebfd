-- ===== src/Raft/Harness/Terms.antt =====
-- What `checkTerms` and `checkNoLeader` of src/raft/config.go make sure of.
use spring.Common.{
  ℕ, zero, suc, ◌+◌, true, false, List, [], ◌∷◌, Option, none, some, ◌==◌, ==_iff, get_elem?, ◌≡◌,
  sym, ap, ◌∙◌, arith, Bool-cases, inl, inr,
}
use mathlib.Core.Option.{some-injective}
use spring.Raft.Types.{Raft}
use spring.Raft.Harness.{Seen, passed, check_terms, check_no_leader, is_connected_leader}

-- The term that `checkTerms` returns is the one of every connected server.
pub check_terms_lem :
    (term : Option ℕ) (ss : List Seen) {out : Option ℕ}
    → check_terms term ss ≡ passed out
    → ((t : ℕ) → term ≡ some t → out ≡ some t)
      × ((k : ℕ) (rf : Raft) → get_elem? ss k ≡ some (true, rf) → out ≡ some rf.current_term)
unfolding check_terms
check_terms_lem term [] {out} h =
    let same : term ≡ out = ground (arith, h) in ((λ t e. sym same ∙ e), λ k rf at. absurd (cc at))
check_terms_lem term ((false, x) ∷ ss) {out} h =
    let (kept, all) = check_terms_lem term ss {out = out} (skipped term x ss h) in
    (kept, later kept all)
  where
    skipped :
        (term : Option ℕ) (x : Raft) (ss : List Seen) {out : Option ℕ}
        → check_terms term ((false, x) ∷ ss) ≡ passed out
        → check_terms term ss ≡ passed out
    skipped none x ss h = h
    skipped (some t) x ss h = h

    later :
        ((t : ℕ) → term ≡ some t → out ≡ some t)
        → ((k : ℕ) (rf : Raft) → get_elem? ss k ≡ some (true, rf) → out ≡ some rf.current_term)
        → (k : ℕ) (rf : Raft) → get_elem? ((false, x) ∷ ss) k ≡ some (true, rf)
        → out ≡ some rf.current_term
    later kept all zero rf at =
        absurd (cc (ap (λ (s : Seen). s.0) (some-injective (false, x) (true, rf) at)))
    later kept all (suc k) rf at = all k rf at
check_terms_lem none ((true, x) ∷ ss) {out} h =
    let (kept, all) = check_terms_lem (some x.current_term) ss {out = out} h in
    ((λ t e. absurd (cc e)), first kept all)
  where
    first :
        ((t : ℕ) → some x.current_term ≡ some t → out ≡ some t)
        → ((k : ℕ) (rf : Raft) → get_elem? ss k ≡ some (true, rf) → out ≡ some rf.current_term)
        → (k : ℕ) (rf : Raft) → get_elem? ((true, x) ∷ ss) k ≡ some (true, rf)
        → out ≡ some rf.current_term
    first kept all zero rf at =
        let same : x ≡ rf = ap (λ (s : Seen). s.1) (some-injective (true, x) (true, rf) at) in
        kept rf.current_term (ap (λ (r : Raft). some r.current_term) same)
    first kept all (suc k) rf at = all k rf at
check_terms_lem (some t) ((true, x) ∷ ss) {out} h = elim (Bool-cases (t == x.current_term)) [
  | inr n ↦ absurd (ground (arith, h, n))
  | inl y ↦
      (let (kept, all) = check_terms_lem (some t) ss {out = out} (ground (arith, h, y)) in
        (kept, agreed ((==_iff t x.current_term).0 y) kept all))
]
  where
    agreed :
        t ≡ x.current_term
        → ((u : ℕ) → some t ≡ some u → out ≡ some u)
        → ((k : ℕ) (rf : Raft) → get_elem? ss k ≡ some (true, rf) → out ≡ some rf.current_term)
        → (k : ℕ) (rf : Raft) → get_elem? ((true, x) ∷ ss) k ≡ some (true, rf)
        → out ≡ some rf.current_term
    agreed e kept all zero rf at =
        let same : x ≡ rf = ap (λ (s : Seen). s.1) (some-injective (true, x) (true, rf) at) in
        kept rf.current_term (ap some e ∙ ap (λ (r : Raft). some r.current_term) same)
    agreed e kept all (suc k) rf at = all k rf at

-- `checkNoLeader` passes only where no connected server leads.
pub check_no_leader_lem :
    (i : ℕ) (ss : List Seen)
    → check_no_leader i ss ≡ none
    → (k : ℕ) (s : Seen) → get_elem? ss k ≡ some s
    → is_connected_leader s ≡ false
unfolding check_no_leader
check_no_leader_lem i [] h k s at = absurd (cc at)
check_no_leader_lem i (x ∷ ss) h zero s at = elim (Bool-cases (is_connected_leader x)) [
  | inl y ↦ absurd (ground (arith, h, y))
  | inr y ↦ ap is_connected_leader (sym (some-injective x s at)) ∙ y
]
check_no_leader_lem i (x ∷ ss) h (suc k) s at = elim (Bool-cases (is_connected_leader x)) [
  | inl y ↦ absurd (ground (arith, h, y))
  | inr y ↦ check_no_leader_lem (i + 1) ss (ground (arith, h, y)) k s at
]
