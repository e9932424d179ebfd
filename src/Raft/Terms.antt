-- ===== src/Raft/Terms.antt =====
-- The search for the first entry of a term, in the loops of src/raft/raft.go.
use spring.Common.{
  sym, ◌∙◌, take, get_elem?-take, ℕ, zero, suc, ◌≤◌, ◌<◌, ◌≡◌, ◌≢◌, refl, some, List, [], ◌∷◌,
  get_elem?, ◌==◌, arith, Option-cases, Bool-cases, inl, inr,
}
use spring.Raft.Types.{Log}
use spring.Raft.Append.{first_of_term}

-- `k` is the index of the first entry of term `t`.
pub record IsFirst (t : ℕ) (es : List Log) (k : ℕ) : Type 0 where
  pub entry : (e : Log) × (get_elem? es k ≡ some e) × (e.log_term ≡ t)
  pub before : (m : ℕ) (e : Log) → m < k → get_elem? es m ≡ some e → e.log_term ≢ t

-- The search stops at an entry of the term, no later than at any given one.
pub first_of_term-found :
    (t : ℕ) (es : List Log) (i : ℕ) (e : Log)
    → get_elem? es i ≡ some e
    → e.log_term ≡ t
    → (k : ℕ) × (first_of_term t es ≡ some k) × (k ≤ i)
unfolding first_of_term
first_of_term-found t [] i e h p = absurd (cc h)
first_of_term-found t (x ∷ es) zero e h p = (0, ground arith, omega arith)
first_of_term-found t (x ∷ es) (suc i) e h p = elim (Bool-cases (x.log_term == t)) [
  | inl here ↦ (0, ground arith, omega arith)
  | inr there ↦
      let (k, found, le) = first_of_term-found t es i e h p in (suc k, ground arith, omega arith)
]

IsFirst-before :
    (t : ℕ) (x : Log) (es : List Log) (k : ℕ)
    → x.log_term ≢ t
    → IsFirst t es k
    → IsFirst t (x ∷ es) (suc k)
IsFirst-before t x es k ne f = record {
  entry = f.entry;
  before = λ m e lt here. before_from m e lt here;
}
  where
    before_from : (m : ℕ) (e : Log) → m < suc k → get_elem? (x ∷ es) m ≡ some e → e.log_term ≢ t
    before_from zero e lt here = ground arith
    before_from (suc m) e lt here = f.before m e (omega arith) here

IsFirst-here : (t : ℕ) (x : Log) (es : List Log) → x.log_term ≡ t → IsFirst t (x ∷ es) 0
IsFirst-here t x es p = record {
  entry = (x, refl, p);
  before = λ m e lt here. absurd (omega arith);
}

-- What the search finds is the first entry of the term.
pub first_of_term-IsFirst :
    (t : ℕ) (es : List Log) (k : ℕ) → first_of_term t es ≡ some k → IsFirst t es k
unfolding first_of_term
first_of_term-IsFirst t [] k h = absurd (cc h)
first_of_term-IsFirst t (x ∷ es) k h = elim (Bool-cases (x.log_term == t)) [
  | inl here ↦
      let at_start : k ≡ 0 = ground arith in rw at_start (IsFirst-here t x es (ground arith))
  | inr there ↦ elim (Option-cases (first_of_term t es)) [
    | inl gone ↦ absurd (ground arith)
    | inr (j, found) ↦
        let next : k ≡ suc j = ground arith in
        rw next (IsFirst-before t x es j (ground arith) (first_of_term-IsFirst t es j found))
  ]
]

-- The first entry of a prefix is the first of the whole.
pub IsFirst-take :
    (t n : ℕ) (es : List Log) (k : ℕ) → k < n → IsFirst t (take n es) k → IsFirst t es k
IsFirst-take t n es k lt f = record {
  entry = (f.entry.0, sym (get_elem?-take n es k lt) ∙ f.entry.1, f.entry.2);
  before = λ m e mk here. f.before m e mk (get_elem?-take n es m (omega arith) ∙ here);
}
