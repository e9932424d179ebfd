-- ===== src/Raft/Harness/Counted.antt =====
-- `nCommitted` of src/raft/config.go over books that agree.
use spring.Common.{
  ℕ, zero, suc, ◌+◌, ◌<◌, List, [], ◌∷◌, Option, none, some, ltb, if◌then◌else◌, get_elem?, ◌≡◌,
  ◌⊎◌, inl, inr, refl, ap, ◌∙◌, arith, Option-cases,
}
use spring.Raft.Types.{Command}
use spring.Raft.Harness.Books.{Delivered, n_committed}
use spring.Raft.Harness.Applied.{Agree}

-- How many servers have delivered at an index.
abbrev pub holders : ℕ → List Delivered → ℕ
holders idx [] = 0
holders idx (l ∷ ls) = (elim (l idx) [ none ↦ 0 | some c ↦ 1 ]) + holders idx ls

abbrev pub AllHold : ℕ → Command → List Delivered → Type 0
AllHold idx c ls =
    (j : ℕ) (l : Delivered) (v : Command) → get_elem? ls j ≡ some l → l idx ≡ some v → v ≡ c

n_committed-holders :
    (idx : ℕ) (c : Command) (ls : List Delivered) (count : ℕ) (cmd : Option Command)
    → AllHold idx c ls
    → (0 < count → cmd ≡ some c)
    → n_committed idx ls count cmd
      ≡ some (count + holders idx ls, if ltb 0 (holders idx ls) then some c else cmd)
unfolding n_committed
n_committed-holders idx c [] count cmd all before = ground arith
n_committed-holders idx c (l ∷ ls) count cmd all before =
    let all' : AllHold idx c ls = λ j. all (suc j) in
    elim (Option-cases (l idx)) [
      | inl e ↦ ground (arith, e, n_committed-holders idx c ls count cmd all' before)
      | inr (v, e) ↦
          (let v_c = all 0 l v refl e in
            ground (
              arith,
              e,
              v_c,
              before,
              n_committed-holders idx c ls (count + 1) (some v) all' (λ p. ap some v_c),
            ))
    ]

-- The first command at an index, if there is one.
first_held :
    (idx : ℕ) (ls : List Delivered)
    → (holders idx ls ≡ 0)
      ⊎ ((j : ℕ) × (l : Delivered) × (v : Command) × (get_elem? ls j ≡ some l) × (l idx ≡ some v))
first_held idx [] = inl refl
first_held idx (l ∷ ls) = elim (Option-cases (l idx)) [
  | inr (v, e) ↦ inr (0, l, v, refl, e)
  | inl e ↦ elim (first_held idx ls) [
    | inl z ↦ inl (ground (arith, e, z))
    | inr (j, m, v, at, f) ↦ inr (suc j, m, v, at, f)
  ]
]

none_held :
    (idx : ℕ) (ls : List Delivered)
    → holders idx ls ≡ 0
    → (j : ℕ) (l : Delivered) (v : Command) → get_elem? ls j ≡ some l
    → l idx ≡ some v
    → ⊥
none_held idx [] z j l v at e = cc at
none_held idx (m ∷ ls) z zero l v at e =
    let same : m ≡ l = cc at in
    let f : m idx ≡ some v = ap (λ (d : Delivered). d idx) same ∙ e in absurd (ground (arith, z, f))
none_held idx (m ∷ ls) z (suc j) l v at e = none_held idx ls (omega (arith, z)) j l v at e

-- `nCommitted` over books that agree.
abbrev pub IsCount : ℕ → List Delivered → Type 0
IsCount idx ls =
    ((holders idx ls ≡ 0) × (n_committed idx ls 0 none ≡ some (0, none)))
    ⊎ ((c : Command) × (0 < holders idx ls)
        × AllHold idx c ls
        × (n_committed idx ls 0 none ≡ some (holders idx ls, some c)))

pub Agree-IsCount : (idx : ℕ) (ls : List Delivered) → Agree ls → IsCount idx ls
Agree-IsCount idx ls agree = elim (first_held idx ls) [
  | inl z ↦
      (let all : AllHold idx 0 ls = λ j l v at e. absurd (none_held idx ls z j l v at e) in
        inl (
          z,
          ground
              (arith, n_committed-holders idx 0 ls 0 none all (λ p. absurd (omega (arith, p))), z),
        ))
  | inr (j, l, v, at, e) ↦
      (let all : AllHold idx v ls = λ k m w at' f. agree k j idx m l w v at' at f e in
        let pos_h = some_held j l v at e in
        inr (
          v,
          pos_h,
          all,
          ground (
            arith,
            n_committed-holders idx v ls 0 none all (λ p. absurd (omega (arith, p))),
            pos_h,
          ),
        ))
]
  where
    some_held :
        (j : ℕ) (l : Delivered) (v : Command)
        → get_elem? ls j ≡ some l
        → l idx ≡ some v
        → 0 < holders idx ls
    some_held j l v at e = elim (zero_cases (holders idx ls)) [
      | inl z ↦ absurd (none_held idx ls z j l v at e)
      | inr p ↦ p
    ]
      where
        zero_cases : (n : ℕ) → (n ≡ 0) ⊎ (0 < n)
        zero_cases zero = inl refl
        zero_cases (suc n) = inr (omega arith)
