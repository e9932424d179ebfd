-- ===== src/Raft/Harness/Applied.antt =====
-- What the checks of src/raft/config.go on delivered commands make sure of.
use spring.Common.{
  ℕ, zero, suc, ◌+◌, ◌<◌, true, false, not, ◌&&◌, List, [], ◌∷◌, some, ltb, ◌==◌, ==_iff, get_elem?,
  set, insert, ◌≡◌, ◌⊎◌, inl, inr, refl, sym, ap, ◌∙◌, subst, arith, Bool-cases, Option-cases,
}
use spring.Raft.Types.{Command}
use spring.Raft.Cluster.Fair.{set-cases}
use spring.Raft.Harness.Books.{Delivered, any_differs, is_some, prev_ok}

-- No two servers have delivered different commands at an index.
abbrev pub Agree : List Delivered → Type 0
Agree ls =
    (i j k : ℕ) (l m : Delivered) (v w : Command)
    → get_elem? ls i ≡ some l
    → get_elem? ls j ≡ some m
    → l k ≡ some v
    → m k ≡ some w
    → v ≡ w

-- A server that has delivered at an index above 1 has delivered at the one before.
abbrev pub NoGaps : List Delivered → Type 0
NoGaps ls =
    (i k : ℕ) (l : Delivered) (v : Command)
    → get_elem? ls i ≡ some l
    → 0 < k
    → l (k + 1) ≡ some v
    → (w : Command) × (l k ≡ some w)

any_differs_at :
    (idx : ℕ) (v : Command) (ls : List Delivered) (j : ℕ) (m : Delivered) (w : Command)
    → any_differs idx v ls ≡ false
    → get_elem? ls j ≡ some m
    → m idx ≡ some w
    → w ≡ v
unfolding any_differs
any_differs_at idx v [] j m w h at e = absurd (cc at)
any_differs_at idx v (l ∷ ls) zero m w h at e =
    let here : l ≡ m = cc at in
    let l_w : l idx ≡ some w = ap (λ (f : Delivered). f idx) here ∙ e in ground (arith, h, l_w)
any_differs_at idx v (l ∷ ls) (suc j) m w h at e =
    any_differs_at idx v ls j m w (ground (arith, h)) at e

module _ (idx : ℕ) (v : Command) (ls : List Delivered) (i : ℕ) (l : Delivered)
    (at : get_elem? ls i ≡ some l) where
  abbrev written : Delivered
  written = insert (λ a c. a == c) idx v l

  -- What stands in the books after the write stood there, or is the command.
  written-cases :
      (j k : ℕ) (m : Delivered) (w : Command)
      → get_elem? (set ls i written) j ≡ some m
      → m k ≡ some w
      → ((k ≡ idx) × (w ≡ v) × (i ≡ j))
        ⊎ ((m' : Delivered) × (get_elem? ls j ≡ some m') × (m' k ≡ some w))
  written-cases j k m w at' e = elim (set-cases ls i j written at') [
    | inr old ↦ inr (m, old, e)
    | inl (i_j, same) ↦
        (let e' : written k ≡ some w = ap (λ (f : Delivered). f k) same ∙ e in
          elim (Bool-cases (idx == k)) [
            | inl y ↦ inl (sym ((==_iff idx k).0 y), ground (arith, e', y), i_j)
            | inr y ↦ inr (l, subst (λ x. get_elem? ls x ≡ some l) i_j at, ground (arith, e', y))
          ])
  ]

  pub written-Agree : any_differs idx v ls ≡ false → Agree ls → Agree (set ls i written)
  written-Agree none_differs h a b k m n x y am bn mx ny = elim (written-cases a k m x am mx) [
    | inl (ki, xv, _) ↦ elim (written-cases b k n y bn ny) [
      | inl (_, yv, _) ↦ xv ∙ sym yv
      | inr (n', bn', ny') ↦
          xv ∙ sym (any_differs_at idx v ls b n' y none_differs bn' (ap n' (sym ki) ∙ ny'))
    ]
    | inr (m', am', mx') ↦ elim (written-cases b k n y bn ny) [
      | inl (ki, yv, _) ↦
          any_differs_at idx v ls a m' x none_differs am' (ap m' (sym ki) ∙ mx') ∙ sym yv
      | inr (n', bn', ny') ↦ h a b k m' n' x y am' bn' mx' ny'
    ]
  ]

  kept : (k : ℕ) (w : Command) → l k ≡ some w → (u : Command) × (written k ≡ some u)
  kept k w e = elim (Bool-cases (idx == k)) [ inl y ↦ (v, rw y refl) | inr y ↦ (w, rw y e) ]

  pub written-NoGaps :
      (ltb 1 idx && not (prev_ok idx l)) ≡ false → NoGaps ls → NoGaps (set ls i written)
  written-NoGaps in_order h j k m w at' pk e = elim (set-cases ls i j written at') [
    | inr old ↦ h j k m w old pk e
    | inl (i_j, same) ↦
        (let e' : written (k + 1) ≡ some w = ap (λ (f : Delivered). f (k + 1)) same ∙ e in
          let (x, lk) = before k w pk e' in
          let (u, at_k) = kept k x lk in (u, ap (λ (f : Delivered). f k) (sym same) ∙ at_k))
  ]
    where
      prev_ok-some : (n k : ℕ) → n ≡ k + 1 → prev_ok n l ≡ true → (x : Command) × (l k ≡ some x)
      prev_ok-some zero k e p = absurd (omega (arith, e))
      prev_ok-some (suc n) k e p = elim (Option-cases (l n)) [
        | inl gone ↦ absurd (cc (sym (ap is_some gone) ∙ p))
        | inr (x, f) ↦ (let n_k : n ≡ k = omega (arith, e) in (x, ap l (sym n_k) ∙ f))
      ]

      before :
          (k : ℕ) (w : Command) → 0 < k → written (k + 1) ≡ some w → (x : Command) × (l k ≡ some x)
      before k w pk e' = elim (Bool-cases (idx == k + 1)) [
        | inl y ↦ prev_ok-some idx k ((==_iff idx (k + 1)).0 y) (ground (arith, in_order, y, pk))
        | inr y ↦ h i k l w at pk (ground (arith, e', y))
      ]
