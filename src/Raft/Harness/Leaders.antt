-- ===== src/Raft/Harness/Leaders.antt =====
-- What `checkOneLeader` and `checkTerms` of src/raft/config.go make sure of.
use mathlib.Core.List.{append-nil, append_assoc}
use spring.Common.{
  ℕ, ◌+◌, ◌≤◌, ◌<◌, false, ◌&&◌, List, [], ◌∷◌, ◌++◌, Option, none, some, ltb, ◌==◌, ==_iff,
  if◌then◌else◌, length, ◌≡◌, ◌≢◌, ◌⊎◌, inl, inr, refl, sym, ap, ◌∙◌, subst, arith, Bool-cases,
}
use spring.Raft.Harness.{
  Seen, Leaders, add_leader, is_connected_leader, leaders_from, passed, later_term, last_term,
  of_term,
}

-- The connected servers from index `i` on that lead term `t`.
abbrev pub leading : ℕ → ℕ → List Seen → List ℕ
leading t i [] = []
leading t i (s ∷ ss) =
    let rest = leading t (i + 1) ss in
    if is_connected_leader s && (s.1.current_term == t) then i ∷ rest else rest

of_term-add_leader :
    (t u i : ℕ) (ls : Leaders)
    → of_term t (add_leader u i ls) ≡ (if u == t then of_term t ls ++ (i ∷ []) else of_term t ls)
unfolding of_term add_leader
of_term-add_leader t u i [] = ground arith
of_term-add_leader t u i ((k, ids) ∷ rest) = ground (arith, of_term-add_leader t u i rest)

pub of_term-leaders_from :
    (t i : ℕ) (ss : List Seen) (ls : Leaders)
    → of_term t (leaders_from i ss ls) ≡ of_term t ls ++ leading t i ss
unfolding leaders_from
of_term-leaders_from t i [] ls = sym (append-nil (of_term t ls))
of_term-leaders_from t i (s ∷ ss) ls = elim (Bool-cases (is_connected_leader s)) [
  | inl y ↦ elim (Bool-cases (s.1.current_term == t)) [
    | inl z ↦
        rw (y, z)
          (of_term-leaders_from t (i + 1) ss (add_leader s.1.current_term i ls)
            ∙ ap (λ l. l ++ leading t (i + 1) ss)
                (of_term-add_leader t s.1.current_term i ls ∙ (rw z refl))
            ∙ append_assoc (of_term t ls) (i ∷ []) (leading t (i + 1) ss))
    | inr z ↦
        rw (y, z)
          (of_term-leaders_from t (i + 1) ss (add_leader s.1.current_term i ls)
            ∙ ap (λ l. l ++ leading t (i + 1) ss)
                (of_term-add_leader t s.1.current_term i ls ∙ (rw z refl)))
  ]
  | inr y ↦ rw y (of_term-leaders_from t (i + 1) ss ls)
]

-- Every term stands once, and has a leader.
abbrev pub IsKeyed : Leaders → Type 0
IsKeyed [] = Unit
IsKeyed ((t, ids) ∷ rest) = (of_term t rest ≡ []) × (0 < length ids) × IsKeyed rest

add_leader-IsKeyed : (u i : ℕ) (ls : Leaders) → IsKeyed ls → IsKeyed (add_leader u i ls)
unfolding add_leader
add_leader-IsKeyed u i [] h = ((unfold of_term in refl), omega arith, tt)
add_leader-IsKeyed u i ((t, ids) ∷ rest) (fresh, more, h) = elim (Bool-cases (t == u)) [
  | inl y ↦ rw y (fresh, longer ids, h)
  | inr y ↦ rw y (
    of_term-add_leader t u i rest ∙ (rw (==_sym_false t u y) fresh),
    more,
    add_leader-IsKeyed u i rest h,
  )
]
  where
    longer : (l : List ℕ) → 0 < length (l ++ (i ∷ []))
    longer [] = omega arith
    longer (x ∷ l) = omega arith

    ==_sym_false : (a b : ℕ) → (a == b) ≡ false → (b == a) ≡ false
    ==_sym_false a b h = ground (arith, h)

pub leaders_from-IsKeyed :
    (i : ℕ) (ss : List Seen) (ls : Leaders) → IsKeyed ls → IsKeyed (leaders_from i ss ls)
unfolding leaders_from
leaders_from-IsKeyed i [] ls h = h
leaders_from-IsKeyed i (s ∷ ss) ls h = elim (Bool-cases (is_connected_leader s)) [
  | inl y ↦ rw y (leaders_from-IsKeyed (i + 1) ss _ (add_leader-IsKeyed s.1.current_term i ls h))
  | inr y ↦ rw y (leaders_from-IsKeyed (i + 1) ss ls h)
]

-- Where the loop over the map passes, each term has one leader at most, and none is later than the
-- result.
abbrev pub IsBounded : Leaders → Option ℕ → Option ℕ → Type 0
IsBounded ls last out =
    ((t : ℕ) → length (of_term t ls) ≤ 1)
    × ((t : ℕ) → of_term t ls ≢ [] → (u : ℕ) × (out ≡ some u) × (t ≤ u))
    × ((t : ℕ) → last ≡ some t → (u : ℕ) × (out ≡ some u) × (t ≤ u))
    × ((u : ℕ) → out ≡ some u → (last ≡ some u) ⊎ (of_term u ls ≢ []))

later_cases :
    (t : ℕ) (last : Option ℕ)
    → ((x : ℕ) × (later_term t last ≡ some x)
        × (t ≤ x)
        × ((u : ℕ) → last ≡ some u → u ≤ x)
        × ((x ≡ t) ⊎ (last ≡ some x)))
later_cases t none = (t, refl, omega arith, (λ u e. absurd (cc e)), inl refl)
later_cases t (some u) = elim (Bool-cases (ltb u t)) [
  | inl y ↦ (t, (rw y refl), omega arith, (λ k e. ground (arith, e, y)), inl refl)
  | inr y ↦ (u, (rw y refl), ground (arith, y), (λ k e. ground (arith, e, y)), inr refl)
]

nonempty : (l : List ℕ) → 0 < length l → l ≢ []
nonempty [] h e = omega (arith, h)
nonempty (x ∷ l) h e = cc e

pub last_term-IsBounded :
    (ls : Leaders) (last : Option ℕ) {out : Option ℕ}
    → IsKeyed ls
    → last_term ls last ≡ passed out
    → IsBounded ls last out
unfolding last_term of_term
last_term-IsBounded [] last {out} k h =
    let e : last ≡ out = ground (arith, h) in
    (
      λ t. omega arith,
      λ t ne. absurd (ne refl),
      λ t l. (t, sym e ∙ l, omega arith),
      λ u o. inl (e ∙ o),
    )
last_term-IsBounded ((t, ids) ∷ rest) last {out} (fresh, more, k) h =
    elim (Bool-cases (ltb 1 (length ids))) [
      | inl y ↦ absurd (ground (arith, h, y))
      | inr y ↦
          (let (x, lx, tx, ux, from) = later_cases t last in
            let lower : last_term rest (later_term t last) ≡ passed out = ground (arith, h, y) in
            let (few, keys, olds, ins) = last_term-IsBounded rest (later_term t last) k lower in
            let (o, oe, xo) = olds x lx in
            (
              λ v. elim (Bool-cases (t == v)) [
                | inl z ↦ rw z (ground (arith, y))
                | inr z ↦ rw z (few v)
              ],
              λ v ne. elim (Bool-cases (t == v)) [
                | inl z ↦ (o, oe, ground (arith, z, tx, xo))
                | inr z ↦ keys v (λ e. ne (rw z e))
              ],
              λ v l. (o, oe, omega (arith, ux v l, xo)),
              λ u ou. elim (Bool-cases (t == u)) [
                | inl z ↦ inr (λ e. nonempty ids more (ground (arith, e, z)))
                | inr z ↦ elim (ins u ou) [
                  | inl at_x ↦ elim from [
                    | inl x_t ↦ absurd (ground (arith, lx, at_x, x_t, z))
                    | inr l ↦ inl (l ∙ sym lx ∙ at_x)
                  ]
                  | inr ne ↦ inr (λ e. ne (ground (arith, e, z)))
                ]
              ],
            ))
    ]

pub last_term-passes :
    (ls : Leaders) (last : Option ℕ)
    → IsKeyed ls
    → ((t : ℕ) → length (of_term t ls) ≤ 1)
    → (out : Option ℕ) × (last_term ls last ≡ passed out)
unfolding last_term of_term
last_term-passes [] last k few = (last, refl)
last_term-passes ((t, ids) ∷ rest) last (fresh, more, k) few =
    let own : length ids ≤ 1 = ground (arith, few t) in
    let below : (u : ℕ) → length (of_term u rest) ≤ 1 = λ u. elim (Bool-cases (t == u)) [
      | inl z ↦ subst (λ v. length (of_term v rest) ≤ 1) ((==_iff t u).0 z) (rw fresh (omega arith))
      | inr z ↦ ground (arith, few u, z)
    ] in
    let (out, h) = last_term-passes rest (later_term t last) k below in
    (out, ground (arith, h, own))
