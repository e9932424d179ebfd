-- ===== src/Raft/Harness/Elected.antt =====
-- `checkOneLeader` of src/raft/config.go on the peers of src/raft/raft.go: what it makes sure of, and
-- that the peers pass it.
use spring.Common.{
  ℕ, zero, suc, ◌≤◌, ◌<◌, List, [], ◌∷◌, Option, none, some, length, get_elem?, ◌≡◌, ◌≢◌, ◌⊎◌, inl,
  inr, refl, sym, ap, ◌∙◌, subst, arith, Option-cases,
}
use mathlib.Core.Option.{some-injective}
use spring.Raft.Harness.{
  Seen, Leaders, leaders_from, Check, fatal, passed, last_term, of_term, pick, one_round,
  check_one_leader,
}
use spring.Raft.Harness.Leaders.{
  leading, IsKeyed, IsBounded, leaders_from-IsKeyed, last_term-IsBounded, last_term-passes,
  of_term-leaders_from,
}

-- No term has two connected leaders.
abbrev pub AtMostOne : List Seen → Type 0
AtMostOne ss = (t : ℕ) → length (leading t 0 ss) ≤ 1

-- `i` is the only connected leader of its term, and no connected server leads a later one.
abbrev pub IsLatest : List Seen → ℕ → Type 0
IsLatest ss i = (t : ℕ) × (leading t 0 ss ≡ i ∷ []) × ((u : ℕ) → t < u → leading u 0 ss ≡ [])

Check-cases :
    (c : Check (Option ℕ)) → (c ≡ fatal) ⊎ ((c ≡ passed none) ⊎ ((i : ℕ) × (c ≡ passed (some i))))
Check-cases fatal = inl refl
Check-cases (passed none) = inr (inl refl)
Check-cases (passed (some i)) = inr (inr (i, refl))

list_cases : (l : List ℕ) → (l ≡ []) ⊎ (l ≢ [])
list_cases [] = inl refl
list_cases (x ∷ l) = inr (λ e. cc e)

passed_same : (a b : Option ℕ) → passed a ≡ passed b → a ≡ b
passed_same a b h = ap (λ (c : Check (Option ℕ)). elim c [ fatal ↦ a | passed x ↦ x ]) h

module _ (ss : List Seen) where
  abbrev ls : Leaders
  ls = leaders_from 0 ss []

  keyed : IsKeyed ls
  keyed = leaders_from-IsKeyed 0 ss [] tt

  at_term : (t : ℕ) → of_term t ls ≡ leading t 0 ss
  unfolding of_term
  at_term t = of_term-leaders_from t 0 ss []

  no_later : (t : ℕ) → IsBounded ls none (some t) → (u : ℕ) → t < u → leading u 0 ss ≡ []
  no_later t (few, keys, olds, ins) u l = elim (list_cases (leading u 0 ss)) [
    | inl e ↦ e
    | inr ne ↦
        (let (x, e, ux) = keys u (λ f. ne (sym (at_term u) ∙ f)) in
          let t_x : t ≡ x = cc e in absurd (omega (arith, l, ux, t_x)))
  ]

  bounded-AtMostOne : {out : Option ℕ} → IsBounded ls none out → AtMostOne ss
  bounded-AtMostOne b t = subst (λ l. length l ≤ 1) (at_term t) (b.0 t)

  picked :
      (l : List ℕ) (i : ℕ)
      → elim l as (λ _. Check (Option ℕ)) [ [] ↦ fatal | j ∷ ids ↦ passed (some j) ]
        ≡ passed (some i)
      → length l ≤ 1
      → l ≡ i ∷ []
  picked [] i h few = absurd (cc h)
  picked (j ∷ []) i h few =
      let e : some j ≡ some i = passed_same (some j) (some i) h in ground (arith, e)
  picked (j ∷ k ∷ l) i h few = absurd (omega (arith, few))

  one_round-IsLatest : (i : ℕ) → one_round ss ≡ passed (some i) → IsLatest ss i × AtMostOne ss
  unfolding one_round
  one_round-IsLatest i h = elim (Check-cases (last_term ls none)) [
    | inl e ↦ absurd (cc (ap (pick ls) (sym e) ∙ h))
    | inr (inl e) ↦ absurd (cc (ap (pick ls) (sym e) ∙ h))
    | inr (inr (t, e)) ↦
        (let b = last_term-IsBounded ls none keyed e in
          (
            (
              t,
              sym (at_term t) ∙ picked (of_term t ls) i (ap (pick ls) (sym e) ∙ h) (b.0 t),
              no_later t b,
            ),
            bounded-AtMostOne b,
          ))
  ]

  -- Where no term has two leaders, a round is not fatal, and finds a leader if there is one.
  one_round-passes :
      AtMostOne ss
      → (one_round ss ≡ passed none × ((t : ℕ) → leading t 0 ss ≡ []))
        ⊎ ((i : ℕ) × (one_round ss ≡ passed (some i)))
  unfolding one_round
  one_round-passes few =
      let (out, e) =
        last_term-passes ls none keyed (λ t. subst (λ l. length l ≤ 1) (sym (at_term t)) (few t)) in
      let b = last_term-IsBounded ls none keyed e in
      elim (Option-cases out) [
        | inl gone ↦ inl (ap (pick ls) (e ∙ ap passed gone), λ t. nobody t (b.1 t) gone)
        | inr (t, found) ↦ elim (b.3 t found) [
          | inl impossible ↦ absurd (cc impossible)
          | inr ne ↦
              (let (i, q) = pick_first (of_term t ls) ne in
                inr (i, ap (pick ls) (e ∙ ap passed found) ∙ q))
        ]
      ]
    where
      nobody :
          {out : Option ℕ} (t : ℕ)
          → (of_term t ls ≢ [] → (u : ℕ) × (out ≡ some u) × (t ≤ u))
          → out ≡ none
          → leading t 0 ss ≡ []
      nobody t keys gone = elim (list_cases (leading t 0 ss)) [
        | inl e ↦ e
        | inr ne ↦ (let (u, o, _) = keys (λ f. ne (sym (at_term t) ∙ f)) in absurd (cc (o, gone)))
      ]

      pick_first :
          (l : List ℕ)
          → l ≢ []
          → (i : ℕ) × (elim l as (λ _. Check (Option ℕ)) [ [] ↦ fatal | j ∷ ids ↦ passed (some j) ]
              ≡ passed (some i))
      pick_first [] ne = absurd (ne refl)
      pick_first (j ∷ l) ne = (j, refl)

-- A server that `checkOneLeader` returns was, when it looked, the only connected leader of its term,
-- no connected server led a later term, and no term had two connected leaders.
pub check_one_leader_lem :
    (rounds : List (List Seen)) (i : ℕ)
    → check_one_leader rounds ≡ passed i
    → (k : ℕ) × (ss : List Seen) × (get_elem? rounds k ≡ some ss) × IsLatest ss i × AtMostOne ss
unfolding check_one_leader
check_one_leader_lem [] i h = absurd (cc h)
check_one_leader_lem (ss ∷ rounds) i h = elim (Check-cases (one_round ss)) [
  | inl e ↦ absurd (ground (arith, h, e))
  | inr (inl e) ↦
      (let (k, r, at, latest, few) = check_one_leader_lem rounds i (ground (arith, h, e)) in
        (suc k, r, at, latest, few))
  | inr (inr (j, e)) ↦
      (let same : j ≡ i = ground (arith, h, e) in
        let (latest, few) = one_round-IsLatest ss i (e ∙ ap (λ x. passed (some x)) same) in
        (0, ss, refl, latest, few))
]

next_round :
    (r : List Seen) (rounds : List (List Seen))
    → one_round r ≡ passed none
    → check_one_leader (r ∷ rounds) ≡ check_one_leader rounds
unfolding check_one_leader
next_round r rounds e = ground (arith, e)

found_round :
    (r : List Seen) (rounds : List (List Seen)) (i : ℕ)
    → one_round r ≡ passed (some i)
    → check_one_leader (r ∷ rounds) ≡ passed i
unfolding check_one_leader
found_round r rounds i e = ground (arith, e)

abbrev pub AllAtMostOne : List (List Seen) → Type 0
AllAtMostOne [] = Unit
AllAtMostOne (ss ∷ rounds) = AtMostOne ss × AllAtMostOne rounds

-- It passes where some round sees a leader and none sees two of a term.
pub check_one_leader-passes :
    (rounds : List (List Seen)) (k t : ℕ) {ss : List Seen}
    → AllAtMostOne rounds
    → get_elem? rounds k ≡ some ss
    → leading t 0 ss ≢ []
    → (i : ℕ) × (check_one_leader rounds ≡ passed i)
unfolding check_one_leader
check_one_leader-passes [] k t all at ne = absurd (cc at)
check_one_leader-passes (r ∷ rounds) k t (few, all) at ne = elim (one_round-passes r few) [
  | inr (i, e) ↦ (i, found_round r rounds i e)
  | inl (e, nobody) ↦ elim (index_cases k) [
    | inl z ↦
        (let same : r ≡ _ = some-injective r _ (ap (get_elem? (r ∷ rounds)) (sym z) ∙ at) in
          absurd (ne (ap (leading t 0) (sym same) ∙ nobody t)))
    | inr (j, z) ↦
        (let (i, f) =
            check_one_leader-passes rounds j t all (ap (get_elem? (r ∷ rounds)) (sym z) ∙ at) ne in
          (i, next_round r rounds e ∙ f))
  ]
]
  where
    index_cases : (k : ℕ) → (k ≡ 0) ⊎ ((j : ℕ) × (k ≡ suc j))
    index_cases zero = inl refl
    index_cases (suc j) = inr (j, refl)
