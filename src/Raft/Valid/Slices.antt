-- ===== src/Raft/Valid/Slices.antt =====
-- What the slicing of a well-formed log keeps.
use spring.Common.{
  get_elem?-none, ℕ, zero, suc, ◌≤◌, ◌<◌, ◌≡◌, refl, ap, ◌∙◌, some, List, [], ◌∷◌, ◌++◌, length,
  take, drop, get_elem?, get_elem?-some, set-get_elem?, sub_ℕ-pos, ◌-◌, arith, pos, none,
}
use spring.Raft.Types.{Raft, Log}
use spring.Raft.Index.{last_entry, entry_at, before}
use spring.Raft.Append.{with_checked, checked_term}
use spring.Raft.Valid.{first_term, IsValid}

pub length-first_term : (es : List Log) {t : ℕ} → first_term es ≡ some t → 0 < length es
length-first_term [] h = absurd (cc h)
length-first_term (e ∷ es) h = omega arith

pub first_term-take : (n : ℕ) (es : List Log) → first_term (take (suc n) es) ≡ first_term es
first_term-take n [] = refl
first_term-take n (e ∷ es) = refl

pub first_term-append :
    (es fs : List Log) {t : ℕ} → first_term es ≡ some t → first_term (es ++ fs) ≡ some t
first_term-append [] fs h = absurd (cc h)
first_term-append (e ∷ es) fs h = h

pub first_term-drop :
    (i : ℕ) (es : List Log) (e : Log)
    → get_elem? es i ≡ some e
    → first_term (drop i es) ≡ some e.log_term
first_term-drop i [] e h = absurd (cc h)
first_term-drop zero (x ∷ es) e h = ground arith
first_term-drop (suc i) (x ∷ es) e h = first_term-drop i es e h

pub first_term-zero :
    (es : List Log) (e : Log) {t : ℕ}
    → first_term es ≡ some t
    → get_elem? es 0 ≡ some e
    → e.log_term ≡ t
first_term-zero [] e p h = absurd (cc h)
first_term-zero (x ∷ es) e p h = ground arith

-- In a well-formed peer the term that is checked is the entry's own, and nothing is rewritten.
pub checked-valid :
    (rf : Raft) (i : ℕ) (e : Log)
    → IsValid rf
    → get_elem? rf.log i ≡ some e
    → (checked_term rf i e ≡ e.log_term) × (with_checked rf i e ≡ rf)
checked-valid rf zero e v h =
    ground (arith, first_term-zero rf.log e v.base h, set-get_elem? rf.log 0 e h)
checked-valid rf (suc i) e v h = ground arith

before-pos : (es : List Log) (n : ℕ) → 0 < n → before (pos n) es ≡ get_elem? es (n - 1)
before-pos es zero h = elim h [ ]
before-pos es (suc n) h = ap (get_elem? es) (omega arith)

-- The last entry of a well-formed peer is the last of the slice.
pub last_entry-eq : (rf : Raft) → IsValid rf → last_entry rf ≡ get_elem? rf.log (length rf.log - 1)
unfolding last_entry
last_entry-eq rf v =
    ap (λ k. before k rf.log) (sub_ℕ-pos rf.log_length rf.last_included_index (omega arith))
    ∙ ap (λ n. before (pos n) rf.log) (omega arith)
    ∙ before-pos rf.log (length rf.log) (length-first_term rf.log v.base)

-- A well-formed peer has a last entry.
pub last_entry-some : (rf : Raft) → IsValid rf → (e : Log) × (last_entry rf ≡ some e)
last_entry-some rf v =
    let nonempty : 0 < length rf.log = length-first_term rf.log v.base in
    let (e, h) = get_elem?-some rf.log (length rf.log - 1) (omega arith) in
    (e, last_entry-eq rf v ∙ h)

-- A global index inside the slice has an entry, that of its offset.
pub entry_at-eq :
    (rf : Raft) (idx : ℕ)
    → rf.last_included_index ≤ idx
    → entry_at rf idx ≡ get_elem? rf.log (idx - rf.last_included_index)
unfolding entry_at
entry_at-eq rf idx h = rw (sub_ℕ-pos idx rf.last_included_index h)

pub entry_at-some :
    (rf : Raft) (idx : ℕ)
    → IsValid rf
    → rf.last_included_index ≤ idx
    → idx < rf.log_length
    → (e : Log) × (entry_at rf idx ≡ some e)
entry_at-some rf idx v lo hi =
    let (e, h) = get_elem?-some rf.log (idx - rf.last_included_index) (omega arith) in
    (e, entry_at-eq rf idx lo ∙ h)

-- Below the slice there is no entry.
pub entry_below : (rf : Raft) (idx : ℕ) → idx < rf.last_included_index → entry_at rf idx ≡ none
unfolding entry_at
entry_below rf idx h = ground arith

-- Behind the slice there is no entry.
pub entry_beyond : (rf : Raft) (idx : ℕ) → IsValid rf → rf.log_length ≤ idx → entry_at rf idx ≡ none
entry_beyond rf idx v h =
    rw (entry_at-eq rf idx (omega arith))
      (get_elem?-none rf.log (idx - rf.last_included_index) (omega arith))
