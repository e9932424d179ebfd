-- ===== src/Raft/Harness/Started.antt =====
-- Servers of the harness src/raft/config.go that leave, crash and start.
use spring.Common.{
  ℕ, Bool, true, false, ◌&&◌, ◌||◌, List, Option, none, some, get_elem?, put, ◌≡◌, ◌≢◌, inl, inr,
  sym, ap, ◌∙◌, subst, arith, Bool-cases, >>=-eq-some,
}
use mathlib.Core.Option.{some-injective}
use spring.Labrpc.Network.{Network, admin, assign}
use spring.Raft.Harness.Rig.{
  Rig, Rows, off_names, own_names, name_in, column, enable_all, disconnect, crash1, copied,
}
use spring.Raft.Harness.Links.{
  has, is_on, end_of, IsEnabled, enable_all-IsEnabled, off_names_sound, off_names_complete,
  row_names-at, at-row_names, column-at, at-column, end_of-at, is_on-set_self, is_on-set_ne,
}
use spring.Raft.Harness.Wired.{IsWired, IsRigged, put-some, and_false, both_on}

own_names-at :
    (row : Option (List ℕ)) (j : ℕ) {e : ℕ}
    → get_elem? (own_names row) j ≡ some (some e)
    → name_in row j ≡ some e
own_names-at none j h = absurd (cc h)
own_names-at (some es) j h = row_names-at es j h

at-own_names :
    (row : Option (List ℕ)) (j : ℕ) {e : ℕ}
    → name_in row j ≡ some e
    → get_elem? (own_names row) j ≡ some (some e)
at-own_names none j h = absurd (cc h)
at-own_names (some es) j h = at-row_names es j h

-- A server is disconnected, and all its links are disabled.
module _ (net net1 net2 : Network) (on on' : List Bool) (rows : Rows) (i : ℕ)
    (row : Option (List ℕ)) (w : IsWired net on rows) (self : is_on on' i ≡ false)
    (rest : (j : ℕ) → i ≢ j → is_on on' j ≡ is_on on j) (here : get_elem? rows i ≡ some row)
    (first : IsEnabled false (off_names (own_names row)) net net1)
    (second : IsEnabled false (off_names (column i rows)) net1 net2) where
  abbrev touched : ℕ → Bool
  touched e = has e (off_names (column i rows)) || has e (off_names (own_names row))

  disabled_after : (e : ℕ) → touched e ≡ true → net2.enabled e ≡ false
  disabled_after e h = ground (arith, first.enabled e, second.enabled e, h)

  enabled_still : (e : ℕ) → touched e ≡ false → net2.enabled e ≡ net.enabled e
  enabled_still e h = ground (arith, first.enabled e, second.enabled e, h)

  off_both :
      (k l e : ℕ)
      → end_of rows k l ≡ some e
      → touched e ≡ true
      → (is_on on' k && is_on on' l) ≡ false
  off_both k l e at h = elim (Bool-cases (has e (off_names (column i rows)))) [
    | inl y ↦
        (let (j, there) = off_names_sound (column i rows) e y in
          let (_, l_i) = w.once k l j i e at (column-at i rows j there) in
          and_false _ _ (ap (is_on on') l_i ∙ self))
    | inr n ↦
        (let y : has e (off_names (own_names row)) ≡ true = ground (arith, h, n) in
          let (j, there) = off_names_sound (own_names row) e y in
          let (k_i, _) = w.once k l i j e at (end_of-at rows i j here ∙ own_names-at row j there) in
          let off : is_on on' k ≡ false = ap (is_on on') k_i ∙ self in ground (arith, off))
  ]

  same_both :
      (k l e : ℕ)
      → end_of rows k l ≡ some e
      → touched e ≡ false
      → (is_on on k && is_on on l) ≡ (is_on on' k && is_on on' l)
  same_both k l e at h =
      let not_k : i ≢ k = λ y.
        (let out = off_names_complete (own_names row) e l (
            at-own_names row l
              (sym (end_of-at rows i l here) ∙ ap (λ x. end_of rows x l) y ∙ at)) in
          absurd (ground (arith, out, h))) in
      let not_l : i ≢ l = λ y.
        (let inn =
            off_names_complete (column i rows) e k
              (at-column i rows k (ap (end_of rows k) y ∙ at)) in
          absurd (ground (arith, inn, h))) in
      both_on _ _ _ _ (sym (rest k not_k)) (sym (rest l not_l))

  disconnected-IsWired : IsWired net2 on' rows
  disconnected-IsWired = record {
    ends = λ k l e at. ap (λ f. f e) (second.ends ∙ first.ends) ∙ w.ends k l e at;
    once = w.once;
    goes = λ k l e at. ap (λ f. f e) (second.connections ∙ first.connections) ∙ w.goes k l e at;
    live = λ k l e at. elim (Bool-cases (touched e)) [
      | inl y ↦ disabled_after e y ∙ sym (off_both k l e at y)
      | inr n ↦ enabled_still e n ∙ w.live k l e at ∙ same_both k l e at n
    ];
  }

pub disconnect-IsRigged :
    (i : ℕ) (cfg : Rig) {cfg' : Rig}
    → disconnect i cfg ≡ some cfg'
    → IsRigged cfg
    → IsRigged cfg' × (is_on cfg'.connected i ≡ false) × (cfg'.endnames ≡ cfg.endnames)
unfolding disconnect
disconnect-IsRigged i cfg {cfg'} h w =
    let (on', p, h1) = >>=-eq-some (put cfg.connected i false) _ h in
    let (row, at, h2) = >>=-eq-some (get_elem? cfg.endnames i) _ h1 in
    let (net1, e1, h3) = >>=-eq-some (enable_all false (off_names (own_names row)) cfg.net) _ h2 in
    let (net2, e2, h4) =
      >>=-eq-some (enable_all false (off_names (column i cfg.endnames)) net1) _ h3 in
    let (inside, made) = put-some cfg.connected i false p in
    let off : is_on on' i ≡ false =
      ap (λ cs. is_on cs i) (sym made) ∙ is_on-set_self cfg.connected i false inside in
    let wired =
      disconnected-IsWired cfg.net net1 net2 cfg.connected on' cfg.endnames i row w off
        (λ j ne. ap (λ cs. is_on cs j) (sym made) ∙ is_on-set_ne cfg.connected i j false ne) at
        (enable_all-IsEnabled false (off_names (own_names row)) cfg.net e1)
        (enable_all-IsEnabled false (off_names (column i cfg.endnames)) net1 e2) in
    let done = some-injective _ cfg' h4 in
    (
      subst IsRigged done wired,
      ap (λ (x : Rig). is_on x.connected i) (sym done) ∙ off,
      ap (λ (x : Rig). x.endnames) (sym done),
    )

pub crash1-IsRigged :
    (i : ℕ) (cfg : Rig) {cfg' : Rig}
    → crash1 i cfg ≡ some cfg'
    → IsRigged cfg
    → IsRigged cfg' × (is_on cfg'.connected i ≡ false)
unfolding crash1 admin
crash1-IsRigged i cfg {cfg'} h w =
    let (mid, d, h1) = >>=-eq-some (disconnect i cfg) _ h in
    let (wired, off, _) = disconnect-IsRigged i cfg d w in
    let (ps, s, h2) = >>=-eq-some (get_elem? mid.saved i) _ h1 in
    let (saved, p, h3) = >>=-eq-some (put mid.saved i (copied ps)) _ h2 in
    let (rafts, r, h4) = >>=-eq-some (put mid.rafts i none) _ h3 in
    let done = some-injective _ cfg' h4 in
    let net = record mid.net { servers = assign i none mid.net.servers } in
    let quiet : IsWired net mid.connected mid.endnames = record {
      ends = wired.ends;
      once = wired.once;
      goes = wired.goes;
      live = wired.live;
    } in
    (subst IsRigged done quiet, ap (λ (x : Rig). is_on x.connected i) (sym done) ∙ off)
