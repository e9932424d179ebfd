-- ===== src/Raft/Cluster/Quorum.antt =====
-- Two majorities share a member.
use spring.Common.{
  ℕ, zero, suc, ◌+◌, ◌≤◌, ◌<◌, true, false, List, [], ◌∷◌, Option, none, some, ◌≡◌, refl, ◌⊎◌, inl,
  inr, ◌==◌, if◌then◌else◌, length, ltb, arith, ◌∙◌, Bool-cases, Option-cases,
}

-- How often a number stands in a list.
abbrev pub times : ℕ → List ℕ → ℕ
times x [] = 0
times x (y ∷ ys) = (if y == x then 1 else 0) + times x ys

-- The list without one occurrence.
unfoldable pub take_out : ℕ → List ℕ → Option (List ℕ)
take_out x [] = none
take_out x (y ∷ ys) = elim (y == x) [
  | true ↦ some ys
  | false ↦ elim (take_out x ys) [ none ↦ none | some l ↦ some (y ∷ l) ]
]

pub times-take_out :
    (x : ℕ) (ys : List ℕ) {l : List ℕ}
    → take_out x ys ≡ some l
    → (z : ℕ) → times z ys ≡ times z (x ∷ l)
unfolding take_out
times-take_out x [] h z = absurd (cc h)
times-take_out x (y ∷ ys) {l} h z = elim (Option-cases (take_out x ys)) [
  | inl e ↦ ground (arith, e)
  | inr (r, e) ↦ ground (arith, times-take_out x ys e z)
]

-- The members below `n`, counted one number after the other.
abbrev pub sum_below : ℕ → List ℕ → ℕ
sum_below zero xs = 0
sum_below (suc n) xs = times n xs + sum_below n xs

sum_below-nil : (n : ℕ) → sum_below n [] ≡ 0
sum_below-nil zero = refl
sum_below-nil (suc n) = omega (arith, sum_below-nil n)

sum_below-cons :
    (n y : ℕ) (ys : List ℕ) → sum_below n (y ∷ ys) ≡ (if ltb y n then 1 else 0) + sum_below n ys
sum_below-cons zero y ys = ground arith
sum_below-cons (suc n) y ys = ground (arith, sum_below-cons n y ys)

sum_below-length :
    (n : ℕ) (xs : List ℕ) → ((x : ℕ) → n ≤ x → times x xs ≡ 0) → sum_below n xs ≡ length xs
sum_below-length n [] h = sum_below-nil n
sum_below-length n (y ∷ ys) h =
    let rest = sum_below-length n ys (λ x l. ground (arith, h x l)) in
    let inside : ltb y n ≡ true = elim (Bool-cases (ltb y n)) [
      | inl e ↦ e
      | inr e ↦ absurd (ground (arith, h y (ground arith)))
    ] in
    sum_below-cons n y ys ∙ (rw inside (omega (arith, rest)))

both_or : (a b : ℕ) → ((0 < a) × (0 < b)) ⊎ ((a ≡ 0) ⊎ (b ≡ 0))
both_or zero b = inr (inl refl)
both_or (suc a) zero = inr (inr refl)
both_or (suc a) (suc b) = inl (omega arith, omega arith)

-- Each number below `n` is in one of the lists at most, or one is in both.
meet_below :
    (n : ℕ) (xs ys : List ℕ)
    → ((x : ℕ) → times x xs ≤ 1)
    → ((x : ℕ) → times x ys ≤ 1)
    → ((x : ℕ) × (0 < times x xs) × (0 < times x ys)) ⊎ (sum_below n xs + sum_below n ys ≤ n)
meet_below zero xs ys hx hy = inr (omega arith)
meet_below (suc n) xs ys hx hy = elim (meet_below n xs ys hx hy) [
  | inl both ↦ inl both
  | inr few ↦ elim (both_or (times n xs) (times n ys)) [
    | inl (px, py) ↦ inl (n, px, py)
    | inr (inl e) ↦ inr (omega (arith, few, e, hy n))
    | inr (inr e) ↦ inr (omega (arith, few, e, hx n))
  ]
]

-- Two lists of different numbers below `n`, each longer than half of `n`, share a number.
pub majorities_meet :
    (n : ℕ) (xs ys : List ℕ)
    → ((x : ℕ) → times x xs ≤ 1)
    → ((x : ℕ) → times x ys ≤ 1)
    → ((x : ℕ) → n ≤ x → times x xs ≡ 0)
    → ((x : ℕ) → n ≤ x → times x ys ≡ 0)
    → n < length xs + length xs
    → n < length ys + length ys
    → (x : ℕ) × (0 < times x xs) × (0 < times x ys)
majorities_meet n xs ys hx hy bx by_ lx ly = elim (meet_below n xs ys hx hy) [
  | inl both ↦ both
  | inr few ↦ absurd (omega (arith, few, sum_below-length n xs bx, sum_below-length n ys by_))
]
