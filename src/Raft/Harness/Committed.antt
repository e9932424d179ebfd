-- ===== src/Raft/Harness/Committed.antt =====
-- `nCommitted` and `wait` of src/raft/config.go over books that the appliers have accepted.
use spring.Common.{
  ℕ, zero, suc, ◌+◌, ◌≤◌, ◌<◌, Bool, true, false, not, ◌&&◌, ◌||◌, List, [], ◌∷◌, Option, none,
  some, ltb, leb, if◌then◌else◌, get_elem?, empty, replicate, ◌≡◌, inl, inr, refl, sym, ap, ◌∙◌,
  subst, arith, Bool-cases, Option-cases, >>=-eq-some,
}
use mathlib.Core.Option.{some-injective}
use spring.Raft.Types.{ApplyMsg, command_msg, snapshot_msg, Command}
use spring.Raft.Harness.Books.{
  Delivered, Books, fresh_books, any_differs, prev_ok, check_logs, applier, appliers, n_committed,
  decided, Moment, is_past, last_count, wait,
}
use spring.Raft.Harness.Applied.{Agree, NoGaps, written-Agree, written-NoGaps}
use spring.Raft.Harness.Counted.{holders, AllHold, IsCount, Agree-IsCount}

allowed {ℓ} :
    {A : Type ℓ} (c d : Bool) (m : A) {x : A}
    → (if c || d then none else some m) ≡ some x
    → (c ≡ false) × (d ≡ false) × (m ≡ x)
allowed true d m h = absurd (cc h)
allowed false true m h = absurd (cc h)
allowed false false m h = (refl, refl, some-injective m _ h)

applier-Agree :
    (i : ℕ) (m : ApplyMsg) (b : Books) {b' : Books}
    → applier i m b ≡ some b'
    → Agree b.logs × NoGaps b.logs
    → Agree b'.logs × NoGaps b'.logs
unfolding applier check_logs
applier-Agree i (snapshot_msg data' term index) b {b'} h k =
    subst (λ (x : Books). Agree x.logs × NoGaps x.logs) (some-injective b b' h) k
applier-Agree i (command_msg v idx) b {b'} h (agree, no_gaps) =
    let ((err, prev, new), checked, h1) = >>=-eq-some (check_logs i idx v b) _ h in
    let (l, at, h2) = >>=-eq-some (get_elem? b.logs i) _ checked in
    let (good, in_order, same) = allowed err (ltb 1 idx && not prev) new h1 in
    let made = some-injective _ (err, prev, new) h2 in
    let no_err : any_differs idx v b.logs ≡ false =
      ap (λ (x : Bool × Bool × Books). x.0) made ∙ good in
    let has_prev : (ltb 1 idx && not (prev_ok idx l)) ≡ false =
      ap (λ (x : Bool × Bool × Books). ltb 1 idx && not x.1) made ∙ in_order in
    subst (λ (x : Books). Agree x.logs × NoGaps x.logs)
      (ap (λ (x : Bool × Bool × Books). x.2) made ∙ same)
      (
        written-Agree idx v b.logs i l at no_err agree,
        written-NoGaps idx v b.logs i l at has_prev no_gaps,
      )

appliers-Agree :
    (ms : List (ℕ × ApplyMsg)) (b : Books) {b' : Books}
    → appliers ms b ≡ some b'
    → Agree b.logs × NoGaps b.logs
    → Agree b'.logs × NoGaps b'.logs
unfolding appliers
appliers-Agree [] b {b'} h k =
    subst (λ (x : Books). Agree x.logs × NoGaps x.logs) (some-injective b b' h) k
appliers-Agree ((i, m) ∷ ms) b h k =
    let (next, st, h1) = >>=-eq-some (applier i m b) _ h in
    appliers-Agree ms next h1 (applier-Agree i m b st k)

fresh_at :
    (n i k : ℕ) {l : Delivered} {v : Command}
    → get_elem? (replicate n empty) i ≡ some l
    → l k ≡ some v
    → ⊥
fresh_at zero i k at e = cc at
fresh_at (suc n) zero k {l} at e =
    let same : (λ _. none) ≡ l = some-injective _ l at in cc (ap (λ (f : Delivered). f k) same ∙ e)
fresh_at (suc n) (suc i) k at e = fresh_at n i k at e

-- In any order of what the servers deliver, as long as no applier stops the test: no two servers
-- have delivered different commands at an index, none has a gap, and at every index nCommitted
-- passes with the number of servers that have delivered there and, if there are any, their command.
pub appliers_lem :
    (size : ℕ) (ms : List (ℕ × ApplyMsg)) {b : Books}
    → appliers ms (fresh_books size) ≡ some b
    → Agree b.logs × NoGaps b.logs × ((idx : ℕ) → IsCount idx b.logs)
appliers_lem size ms h =
    let (agree, no_gaps) = appliers-Agree ms (fresh_books size) h (
      λ i j k l m v w at at' e e'. absurd (fresh_at size i k at e),
      λ i k l v at pk e. absurd (fresh_at size i (k + 1) at e),
    ) in
    (agree, no_gaps, λ idx. Agree-IsCount idx _ agree)

last_count-cases :
    (n : ℕ) (found : Option (ℕ × Option Command)) {cmd : Option Command}
    → last_count n found ≡ decided cmd
    → (nd : ℕ) × (found ≡ some (nd, cmd)) × (n ≤ nd)
last_count-cases n none h = absurd (cc h)
last_count-cases n (some (nd, c)) h = elim (Bool-cases (ltb nd n)) [
  | inl y ↦ absurd (ground (arith, h, y))
  | inr y ↦ (nd, ground (arith, h, y), ground (arith, y))
]

wait-count :
    (idx n : ℕ) (term : Option ℕ) (ms : List Moment) (books : List Delivered) {cmd : Option Command}
    → wait idx n term ms books ≡ decided cmd
    → last_count n (n_committed idx books 0 none) ≡ decided cmd
unfolding wait
wait-count idx n term [] books h = h
wait-count idx n term (m ∷ ms) books h = elim (Option-cases (n_committed idx m.books 0 none)) [
  | inl e ↦ absurd (ground (arith, h, e))
  | inr ((nd, c), e) ↦ elim (Bool-cases (leb n nd)) [
    | inl y ↦ ground (arith, h, e, y)
    | inr y ↦ elim (Bool-cases (is_past term m.terms)) [
      | inl z ↦ absurd (ground (arith, h, e, y, z))
      | inr z ↦ wait-count idx n term ms books (ground (arith, h, e, y, z))
    ]
  ]
]

-- A command that `wait` returns for at least one server, over books that the appliers have accepted:
-- at least that many servers have delivered at the index, and all that have delivered there have
-- delivered this command.
pub wait_lem :
    (size : ℕ) (msgs : List (ℕ × ApplyMsg)) (idx n : ℕ) (term : Option ℕ) (ms : List Moment)
    {b : Books} {cmd : Option Command}
    → appliers msgs (fresh_books size) ≡ some b
    → 0 < n
    → wait idx n term ms b.logs ≡ decided cmd
    → (c : Command) × (cmd ≡ some c) × (n ≤ holders idx b.logs) × AllHold idx c b.logs
wait_lem size msgs idx n term ms {b} {cmd} h pos_n w =
    let (agree, no_gaps, counts) = appliers_lem size msgs h in
    let (nd, found, enough) = last_count-cases n _ (wait-count idx n term ms b.logs w) in
    elim (counts idx) [
      | inl (z, e) ↦
          (let same = some-injective (0, none) (nd, cmd) (sym e ∙ found) in
            let nd_z : 0 ≡ nd = ap (λ (x : ℕ × Option Command). x.0) same in
            absurd (omega (arith, nd_z, enough, pos_n)))
      | inr (c, p, all, e) ↦
          (let same = some-injective (holders idx b.logs, some c) (nd, cmd) (sym e ∙ found) in
            let nd_h : holders idx b.logs ≡ nd = ap (λ (x : ℕ × Option Command). x.0) same in
            (c, sym (ap (λ (x : ℕ × Option Command). x.1) same), omega (arith, nd_h, enough), all))
    ]
