-- ===== src/Raft/Harness/Wired.antt =====
-- The links of the harness src/raft/config.go: open between connected servers.
use spring.Common.{
  ℕ, ◌<◌, Bool, true, false, ◌&&◌, ◌||◌, List, some, ◌==◌, ==_iff, length, get_elem?, set, put, ltb,
  ◌≡◌, ◌≢◌, inl, inr, refl, sym, ap, ◌∙◌, subst, arith, Bool-cases, >>=-eq-some,
}
use mathlib.Core.Option.{some-injective}
use spring.Labrpc.Network.{Network}
use spring.Raft.Cluster.Fair.{==-ne}
use spring.Raft.Harness.Rig.{Rig, Rows, on_names, row_names, column, enable_all, connect}
use spring.Raft.Harness.Links.{
  has, is_on, end_of, IsEnabled, enable_all-IsEnabled, on_names_sound, on_names_complete,
  row_names-at, at-row_names, column-at, at-column, end_of-at, is_on-set_self, is_on-set_ne,
}

-- The links of the running servers are ends of the network, no two have one name, each is for its
-- server, and it is enabled exactly when both servers are connected.
pub record IsWired (net : Network) (connected : List Bool) (rows : Rows) : Type 0 where
  pub ends : (k l e : ℕ) → end_of rows k l ≡ some e → net.ends e ≡ true
  pub once :
      (k l k' l' e : ℕ)
      → end_of rows k l ≡ some e
      → end_of rows k' l' ≡ some e
      → (k ≡ k') × (l ≡ l')
  pub goes : (k l e : ℕ) → end_of rows k l ≡ some e → net.connections e ≡ some l
  pub live :
      (k l e : ℕ)
      → end_of rows k l ≡ some e
      → net.enabled e ≡ (is_on connected k && is_on connected l)

pub put-some {ℓ} :
    {A : Type ℓ} (xs : List A) (i : ℕ) (v : A) {ys : List A}
    → put xs i v ≡ some ys
    → (i < length xs) × (set xs i v ≡ ys)
put-some xs i v {ys} h = elim (Bool-cases (ltb i (length xs))) [
  | inl y ↦ (ground (arith, y), ground (arith, h, y))
  | inr y ↦ absurd (ground (arith, h, y))
]

pub both_on : (a b c d : Bool) → a ≡ c → b ≡ d → (a && b) ≡ (c && d)
both_on a b c d p q = cc (p, q)

pub and_false : (a b : Bool) → b ≡ false → (a && b) ≡ false
and_false true b h = h
and_false false b h = refl

-- One more server is connected, and the links between it and the connected ones are enabled.
module _ (net net1 net2 : Network) (on on' : List Bool) (rows : Rows) (i : ℕ) (names : List ℕ)
    (outgoing incoming : List ℕ) (w : IsWired net on rows) (self : is_on on' i ≡ true)
    (rest : (j : ℕ) → i ≢ j → is_on on' j ≡ is_on on j) (row : get_elem? rows i ≡ some (some names))
    (outs : on_names on' (row_names names) ≡ some outgoing)
    (first : IsEnabled true outgoing net net1) (ins : on_names on' (column i rows) ≡ some incoming)
    (second : IsEnabled true incoming net1 net2) where
  enabled_after : (e : ℕ) → (has e incoming || has e outgoing) ≡ true → net2.enabled e ≡ true
  enabled_after e h = ground (arith, first.enabled e, second.enabled e, h)

  enabled_still :
      (e : ℕ) → has e incoming ≡ false → has e outgoing ≡ false → net2.enabled e ≡ net.enabled e
  enabled_still e h k = ground (arith, first.enabled e, second.enabled e, h, k)

  outgoing-on : (e l : ℕ) → end_of rows i l ≡ some e → is_on on' l ≡ true → has e outgoing ≡ true
  outgoing-on e l at on_l =
      on_names_complete on' (row_names names) e l outs on_l
        (at-row_names names l (sym (end_of-at rows i l row) ∙ at))

  incoming-on : (e k : ℕ) → end_of rows k i ≡ some e → is_on on' k ≡ true → has e incoming ≡ true
  incoming-on e k at on_k =
      on_names_complete on' (column i rows) e k ins on_k (at-column i rows k at)

  -- A link that is enabled now is between connected servers.
  on_both :
      (k l e : ℕ)
      → end_of rows k l ≡ some e
      → (has e incoming || has e outgoing) ≡ true
      → (is_on on' k && is_on on' l) ≡ true
  on_both k l e at h = elim (Bool-cases (has e incoming)) [
    | inl y ↦
        (let (j, on_j, there) = on_names_sound on' (column i rows) e ins y in
          let (k_j, l_i) = w.once k l j i e at (column-at i rows j there) in
          let on_k : is_on on' k ≡ true = ap (is_on on') k_j ∙ on_j in
          let on_l : is_on on' l ≡ true = ap (is_on on') l_i ∙ self in ground (arith, on_k, on_l))
    | inr n ↦
        (let y : has e outgoing ≡ true = ground (arith, h, n) in
          let (j, on_j, there) = on_names_sound on' (row_names names) e outs y in
          let here : end_of rows i j ≡ some e =
            end_of-at rows i j row ∙ row_names-at names j there in
          let (k_i, l_j) = w.once k l i j e at here in
          let on_k : is_on on' k ≡ true = ap (is_on on') k_i ∙ self in
          let on_l : is_on on' l ≡ true = ap (is_on on') l_j ∙ on_j in ground (arith, on_k, on_l))
  ]

  off_other : (l : ℕ) → is_on on' l ≡ false → is_on on l ≡ false
  off_other l off = elim (Bool-cases (i == l)) [
    | inl y ↦ absurd (cc (sym self ∙ ap (is_on on') ((==_iff i l).0 y) ∙ off))
    | inr y ↦ sym (rest l (==-ne i l y)) ∙ off
  ]

  -- A link that is not touched is as before.
  same_both :
      (k l e : ℕ)
      → end_of rows k l ≡ some e
      → has e incoming ≡ false
      → has e outgoing ≡ false
      → (is_on on k && is_on on l) ≡ (is_on on' k && is_on on' l)
  same_both k l e at no_in no_out = elim (Bool-cases (is_on on' l)) [
    | inr off ↦ and_false _ _ (off_other l off) ∙ sym (and_false _ _ off)
    | inl on_l ↦ elim (Bool-cases (is_on on' k)) [
      | inr off ↦ (let off' = off_other k off in ground (arith, off, off'))
      | inl on_k ↦
          (let not_k : i ≢ k = λ y.
              (let out = outgoing-on e l (ap (λ x. end_of rows x l) y ∙ at) on_l in
                cc (sym out ∙ no_out)) in
            let not_l : i ≢ l = λ y.
              (let inn = incoming-on e k (ap (end_of rows k) y ∙ at) on_k in
                cc (sym inn ∙ no_in)) in
            both_on _ _ _ _ (sym (rest k not_k)) (sym (rest l not_l)))
    ]
  ]

  connected-IsWired : IsWired net2 on' rows
  connected-IsWired = record {
    ends = λ k l e at. ap (λ f. f e) (second.ends ∙ first.ends) ∙ w.ends k l e at;
    once = w.once;
    goes = λ k l e at. ap (λ f. f e) (second.connections ∙ first.connections) ∙ w.goes k l e at;
    live = λ k l e at. elim (Bool-cases (has e incoming || has e outgoing)) [
      | inl y ↦ enabled_after e y ∙ sym (on_both k l e at y)
      | inr n ↦
          (let no_in : has e incoming ≡ false = ground (arith, n) in
            let no_out : has e outgoing ≡ false = ground (arith, n) in
            enabled_still e no_in no_out ∙ w.live k l e at ∙ same_both k l e at no_in no_out)
    ];
  }

abbrev pub IsRigged : Rig → Type 0
IsRigged cfg = IsWired cfg.net cfg.connected cfg.endnames

pub connect-IsRigged :
    (i : ℕ) (cfg : Rig) {cfg' : Rig} → connect i cfg ≡ some cfg' → IsRigged cfg → IsRigged cfg'
unfolding connect
connect-IsRigged i cfg {cfg'} h w =
    let (on', p, h1) = >>=-eq-some (put cfg.connected i true) _ h in
    let (row, at, h2) = >>=-eq-some (get_elem? cfg.endnames i) _ h1 in
    let (names, r, h3) = >>=-eq-some row _ h2 in
    let (outgoing, o, h4) = >>=-eq-some (on_names on' (row_names names)) _ h3 in
    let (net1, e1, h5) = >>=-eq-some (enable_all true outgoing cfg.net) _ h4 in
    let (incoming, o', h6) = >>=-eq-some (on_names on' (column i cfg.endnames)) _ h5 in
    let (net2, e2, h7) = >>=-eq-some (enable_all true incoming net1) _ h6 in
    let (inside, made) = put-some cfg.connected i true p in
    subst IsRigged (some-injective _ cfg' h7) (
      connected-IsWired cfg.net net1 net2 cfg.connected on' cfg.endnames i names outgoing incoming w
        (ap (λ cs. is_on cs i) (sym made) ∙ is_on-set_self cfg.connected i true inside)
        (λ j ne. ap (λ cs. is_on cs j) (sym made) ∙ is_on-set_ne cfg.connected i j true ne)
        (at ∙ ap some r) o (enable_all-IsEnabled true outgoing cfg.net e1) o'
        (enable_all-IsEnabled true incoming net1 e2))
