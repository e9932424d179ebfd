-- ===== src/Raft/Harness/Made.antt =====
-- New links of the harness src/raft/config.go.
use spring.Common.{
  ℕ, zero, suc, ◌+◌, Bool, true, false, List, [], ◌∷◌, none, some, ◌==◌, ==_iff, get_elem?, ◌≡◌,
  inl, inr, refl, sym, ap, ◌∙◌, subst, arith, Bool-cases,
}
use mathlib.Core.Option.{some-injective}
use spring.Labrpc.Network.{Network, admin, assign}
use spring.Raft.Harness.Rig.{make_ends}

-- What `MakeEnd` and `Connect` do for new names: they are new, disabled, and each is for its server.
pub record IsMade (j : ℕ) (es : List ℕ) (old new : Network) : Type 0 where
  pub old_ends : (e : ℕ) → old.ends e ≡ true → new.ends e ≡ true
  pub old_enabled : (e : ℕ) → old.ends e ≡ true → new.enabled e ≡ old.enabled e
  pub old_connections : (e : ℕ) → old.ends e ≡ true → new.connections e ≡ old.connections e
  pub fresh : (l e : ℕ) → get_elem? es l ≡ some e → old.ends e ≡ false
  pub ends : (l e : ℕ) → get_elem? es l ≡ some e → new.ends e ≡ true
  pub disabled : (l e : ℕ) → get_elem? es l ≡ some e → new.enabled e ≡ false
  pub connections : (l e : ℕ) → get_elem? es l ≡ some e → new.connections e ≡ some (j + l)
  pub once : (l m e : ℕ) → get_elem? es l ≡ some e → get_elem? es m ≡ some e → l ≡ m

assign_self {ℓ} : {A : Type ℓ} (k : ℕ) (v : A) (m : ℕ → A) → assign k v m k ≡ v
assign_self k v m = ground arith

assign_other {ℓ} :
    {A : Type ℓ} (k e : ℕ) (v : A) (m : ℕ → A) → (k == e) ≡ false → assign k v m e ≡ m e
assign_other k e v m h = rw h refl

true_or_false : (b : Bool) → b ≡ true → b ≡ false → ⊥
true_or_false true h k = cc k
true_or_false false h k = cc h

pub make_ends-IsMade :
    (j : ℕ) (es : List ℕ) (net : Network) {net' : Network}
    → make_ends j es net ≡ some net'
    → IsMade j es net net'
unfolding make_ends admin
make_ends-IsMade j [] net {net'} h = subst (IsMade j [] net) (some-injective net net' h) (record {
  old_ends = λ e k. k;
  old_enabled = λ e k. refl;
  old_connections = λ e k. refl;
  fresh = λ l e at. absurd (cc at);
  ends = λ l e at. absurd (cc at);
  disabled = λ l e at. absurd (cc at);
  connections = λ l e at. absurd (cc at);
  once = λ l m e at at'. absurd (cc at);
})
make_ends-IsMade j (x ∷ es) net {net'} h = elim (Bool-cases (net.ends x)) [
  | inl y ↦ absurd (ground (arith, h, y))
  | inr new_x ↦
      (let next = record net {
        ends = assign x true net.ends;
        enabled = assign x false net.enabled;
        connections = assign x (some j) (assign x none net.connections);
      } in
        let below : make_ends (j + 1) es next ≡ some net' = made_next new_x h in
        let k = make_ends-IsMade (j + 1) es next below in
        let x_end : next.ends x ≡ true = assign_self x true net.ends in
        let other : (e : ℕ) → net.ends e ≡ true → (x == e) ≡ false = λ e old.
          elim (Bool-cases (x == e)) [
            | inl y ↦
                absurd
                  (true_or_false (net.ends e) old (ap net.ends (sym ((==_iff x e).0 y)) ∙ new_x))
            | inr y ↦ y
          ] in
        let kept : (e : ℕ) → net.ends e ≡ true → next.ends e ≡ true =
          λ e old. assign_other x e true net.ends (other e old) ∙ old in
        record {
          old_ends = λ e old. k.old_ends e (kept e old);
          old_enabled = λ e old.
              k.old_enabled e (kept e old) ∙ assign_other x e false net.enabled (other e old);
          old_connections = λ e old.
              k.old_connections e (kept e old)
              ∙ assign_other x e (some j) (assign x none net.connections) (other e old)
              ∙ assign_other x e none net.connections (other e old);
          fresh = λ l e at. fresh_at k.fresh new_x l e at;
          ends = λ l e at. at_each (λ l e. net'.ends e ≡ true) (k.old_ends x x_end) k.ends l e at;
          disabled = λ l e at.
              at_each (λ l e. net'.enabled e ≡ false)
                (k.old_enabled x x_end ∙ assign_self x false net.enabled) k.disabled l e at;
          connections = λ l e at.
              at_each (λ l e. net'.connections e ≡ some (j + l))
                (k.old_connections x x_end
                  ∙ assign_self x (some j) (assign x none net.connections)
                  ∙ ap some (omega arith))
                (λ l e at. k.connections l e at ∙ ap some (omega arith)) l e at;
          once = λ l m e at at'. once_at (λ l. k.fresh l x) x_end k.once l m e at at';
        })
]
  where
    made_next :
        net.ends x ≡ false
        → make_ends j (x ∷ es) net ≡ some net'
        → make_ends (j + 1) es (record net {
          ends = assign x true net.ends;
          enabled = assign x false net.enabled;
          connections = assign x (some j) (assign x none net.connections);
        })
          ≡ some net'
    made_next new_x h = ground (arith, h, new_x)

    at_each :
        (P : ℕ → ℕ → Type 0)
        → P 0 x
        → ((l e : ℕ) → get_elem? es l ≡ some e → P (suc l) e)
        → (l e : ℕ) → get_elem? (x ∷ es) l ≡ some e
        → P l e
    at_each P here there zero e at = subst (P 0) (some-injective x e at) here
    at_each P here there (suc l) e at = there l e at

    fresh_at :
        ((l e : ℕ) → get_elem? es l ≡ some e → assign x true net.ends e ≡ false)
        → net.ends x ≡ false
        → (l e : ℕ) → get_elem? (x ∷ es) l ≡ some e
        → net.ends e ≡ false
    fresh_at below new_x l e at =
        at_each (λ l e. net.ends e ≡ false) new_x
          (λ l e at. elim (Bool-cases (x == e)) [
            | inl y ↦ ap net.ends (sym ((==_iff x e).0 y)) ∙ new_x
            | inr y ↦ sym (assign_other x e true net.ends y) ∙ below l e at
          ])
          l e at

    once_at :
        ((l : ℕ) → get_elem? es l ≡ some x → assign x true net.ends x ≡ false)
        → assign x true net.ends x ≡ true
        → ((l m e : ℕ) → get_elem? es l ≡ some e → get_elem? es m ≡ some e → l ≡ m)
        → (l m e : ℕ) → get_elem? (x ∷ es) l ≡ some e
        → get_elem? (x ∷ es) m ≡ some e
        → l ≡ m
    once_at new x_end below zero zero e at at' = refl
    once_at new x_end below zero (suc m) e at at' =
        absurd (true_or_false _ x_end (new m (at' ∙ sym at)))
    once_at new x_end below (suc l) zero e at at' =
        absurd (true_or_false _ x_end (new l (at ∙ sym at')))
    once_at new x_end below (suc l) (suc m) e at at' = ap suc (below l m e at at')
