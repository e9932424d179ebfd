-- ===== src/Raft/Harness/Running.antt =====
-- The servers of the harness src/raft/config.go in any sequence of starts, crashes, connects and
-- disconnects, and where their requests go.
use spring.Common.{
  ℕ, zero, suc, ◌<◌, Bool, true, false, ◌&&◌, List, [], ◌∷◌, Option, none, some, ◌==◌, ==_iff,
  if◌then◌else◌, length, get_elem?, set, put, replicate, ◌>>=◌, ◌≡◌, inl, inr, refl, sym, ap, ◌∙◌,
  subst, arith, Bool-cases, Option-cases, >>=-eq-some,
}
use mathlib.Core.Option.{some-injective}
use spring.Labrpc.Network.{Network, admin, assign, read_endname_info}
use spring.Raft.Types.{Gob, Persister, Bytes}
use spring.Raft.Persist.{make, copy, read_snapshot, is_empty}
use spring.Raft.Cluster.Fair.{==-ne}
use spring.Raft.Harness.Rig.{
  Rig, Rows, Decode, make_ends, ingest_snap, restore_saved, start1, crash1, Deed, starts, crashes,
  joins, leaves, deed, deeds, empty_rig,
}
use spring.Raft.Harness.Links.{is_on, end_of, end_of-set_self, end_of-set_ne}
use spring.Raft.Harness.Wired.{IsWired, IsRigged, put-some, connect-IsRigged}
use spring.Raft.Harness.Started.{disconnect-IsRigged, crash1-IsRigged}
use spring.Raft.Harness.Made.{IsMade, make_ends-IsMade}

-- A server that is not connected gets new links.
made-IsWired :
    (net net' : Network) (on : List Bool) (rows : Rows) (i : ℕ) (names : List ℕ)
    → IsWired net on rows
    → is_on on i ≡ false
    → i < length rows
    → IsMade 0 names net net'
    → IsWired net' on (set rows i (some names))
made-IsWired net net' on rows i names w off inside m = record {
  ends = λ k l e at. elim (Bool-cases (i == k)) [
    | inl y ↦ m.ends l e (mine k l e y at)
    | inr y ↦ m.old_ends e (w.ends k l e (others k l e y at))
  ];
  once = λ k l k' l' e at at'. elim (Bool-cases (i == k)) [
    | inl y ↦ elim (Bool-cases (i == k')) [
      | inl y' ↦ (
        sym ((==_iff i k).0 y) ∙ (==_iff i k').0 y',
        m.once l l' e (mine k l e y at) (mine k' l' e y' at'),
      )
      | inr y' ↦
          absurd (clash e (m.fresh l e (mine k l e y at)) (w.ends k' l' e (others k' l' e y' at')))
    ]
    | inr y ↦ elim (Bool-cases (i == k')) [
      | inl y' ↦
          absurd (clash e (m.fresh l' e (mine k' l' e y' at')) (w.ends k l e (others k l e y at)))
      | inr y' ↦ w.once k l k' l' e (others k l e y at) (others k' l' e y' at')
    ]
  ];
  goes = λ k l e at. elim (Bool-cases (i == k)) [
    | inl y ↦ m.connections l e (mine k l e y at) ∙ ap some (omega arith)
    | inr y ↦
        (let at' = others k l e y at in m.old_connections e (w.ends k l e at') ∙ w.goes k l e at')
  ];
  live = λ k l e at. elim (Bool-cases (i == k)) [
    | inl y ↦
        (let off_k : is_on on k ≡ false = ap (is_on on) (sym ((==_iff i k).0 y)) ∙ off in
          m.disabled l e (mine k l e y at) ∙ ground (arith, off_k))
    | inr y ↦ (let at' = others k l e y at in m.old_enabled e (w.ends k l e at') ∙ w.live k l e at')
  ];
}
  where
    clash : (e : ℕ) → net.ends e ≡ false → net.ends e ≡ true → ⊥
    clash e h k = cc (sym h ∙ k)

    mine :
        (k l e : ℕ)
        → (i == k) ≡ true
        → end_of (set rows i (some names)) k l ≡ some e
        → get_elem? names l ≡ some e
    mine k l e y at =
        sym (end_of-set_self rows i l (some names) inside)
        ∙ ap (λ x. end_of (set rows i (some names)) x l) ((==_iff i k).0 y)
        ∙ at

    others :
        (k l e : ℕ)
        → (i == k) ≡ false
        → end_of (set rows i (some names)) k l ≡ some e
        → end_of rows k l ≡ some e
    others k l e y at = sym (end_of-set_ne rows i k l (some names) (==-ne i k y)) ∙ at

-- The parts of the harness that the persisters do not touch.
abbrev SameLinks : Rig → Rig → Type 0
SameLinks a b = (b.net ≡ a.net) × (b.connected ≡ a.connected) × (b.endnames ≡ a.endnames)

SameLinks-IsRigged : (a b : Rig) → SameLinks a b → IsRigged a → IsRigged b
SameLinks-IsRigged a b (n, c, r) w =
    subst (λ x. IsWired x b.connected b.endnames) (sym n)
      (subst (λ x. IsWired a.net x b.endnames) (sym c)
        (subst (λ x. IsWired a.net a.connected x) (sym r) w))

ingest_snap-SameLinks :
    (decode : Decode) (i : ℕ) (snapshot : Bytes) (index : Option ℕ) (cfg : Rig) {cfg' : Rig}
    → ingest_snap decode i snapshot index cfg ≡ some cfg'
    → SameLinks cfg cfg'
unfolding ingest_snap
ingest_snap-SameLinks decode i snapshot index cfg {cfg'} h = ground arith

restore_saved-SameLinks :
    (g : Gob) (decode : Decode) (i : ℕ) (old : Option Persister) (cfg : Rig) {ps : Persister}
    {cfg' : Rig}
    → restore_saved g decode i old cfg ≡ some (ps, cfg')
    → SameLinks cfg cfg'
unfolding restore_saved
restore_saved-SameLinks g decode i none cfg h = ground arith
restore_saved-SameLinks g decode i (some old) cfg {ps} {cfg'} h =
    let snapshot = read_snapshot (copy old) in
    elim (Bool-cases (is_empty snapshot)) [
      | inl y ↦ ground (arith, h, y)
      | inr y ↦ elim (Option-cases (ingest_snap decode i snapshot none cfg)) [
        | inl gone ↦ absurd (ground (arith, h, y, gone))
        | inr (c, e) ↦ ground (arith, h, y, e, ingest_snap-SameLinks decode i snapshot none cfg e)
      ]
    ]

start1-IsRigged :
    (g : Gob) (decode : Decode) (i : ℕ) (names : List ℕ) (server : ℕ) (cfg : Rig) {cfg' : Rig}
    → start1 g decode i names server cfg ≡ some cfg'
    → IsRigged cfg
    → IsRigged cfg'
unfolding start1 admin
start1-IsRigged g decode i names server cfg {cfg'} h w =
    let (crashed, c, h1) = >>=-eq-some (crash1 i cfg) _ h in
    let (wired, off) = crash1-IsRigged i cfg c w in
    let (rows, p, h2) = >>=-eq-some (put crashed.endnames i (some names)) _ h1 in
    let (net, made, h3) = >>=-eq-some (make_ends 0 names crashed.net) _ h2 in
    let (last, q, h4) = >>=-eq-some (put crashed.last_applied i 0) _ h3 in
    let (old, o, h5) = >>=-eq-some (get_elem? crashed.saved i) _ h4 in
    let ready = record crashed { endnames = rows; net = net; last_applied = last } in
    let ((ps, restored), r, h6) = >>=-eq-some (restore_saved g decode i old ready) _ h5 in
    let (saved, s, h7) = >>=-eq-some (put restored.saved i (some ps)) _ h6 in
    let (rafts, t, h8) =
      >>=-eq-some (put restored.rafts i (some (make g (length names) i ps))) _ h7 in
    let (inside, row) = put-some crashed.endnames i (some names) p in
    let fresh : IsRigged ready =
      subst (λ x. IsWired net crashed.connected x) row
        (made-IsWired crashed.net net crashed.connected crashed.endnames i names wired off inside
          (make_ends-IsMade 0 names crashed.net made)) in
    let back =
      SameLinks-IsRigged ready restored (restore_saved-SameLinks g decode i old ready r) fresh in
    let running : IsWired
        (record restored.net { servers = assign i (some server) restored.net.servers })
        restored.connected restored.endnames =
      record { ends = back.ends; once = back.once; goes = back.goes; live = back.live } in
    subst IsRigged (some-injective _ cfg' h8) running

module _ (g : Gob) (decode : Decode) where
  deed-IsRigged :
      (d : Deed) (cfg : Rig) {cfg' : Rig}
      → deed g decode d cfg ≡ some cfg'
      → IsRigged cfg
      → IsRigged cfg'
  unfolding deed
  deed-IsRigged (starts i names server) cfg h w = start1-IsRigged g decode i names server cfg h w
  deed-IsRigged (crashes i) cfg h w = (crash1-IsRigged i cfg h w).0
  deed-IsRigged (joins i) cfg h w = connect-IsRigged i cfg h w
  deed-IsRigged (leaves i) cfg h w = (disconnect-IsRigged i cfg h w).0

  deeds-IsRigged :
      (ds : List Deed) (cfg : Rig) {cfg' : Rig}
      → deeds g decode ds cfg ≡ some cfg'
      → IsRigged cfg
      → IsRigged cfg'
  unfolding deeds
  deeds-IsRigged [] cfg {cfg'} h w = subst IsRigged (some-injective cfg cfg' h) w
  deeds-IsRigged (d ∷ ds) cfg h w =
      let (next, s, h1) = >>=-eq-some (deed g decode d cfg) _ h in
      deeds-IsRigged ds next h1 (deed-IsRigged d cfg s w)

  no_ends : (n k l : ℕ) {e : ℕ} → end_of (replicate n none) k l ≡ some e → ⊥
  no_ends zero k l h = cc h
  no_ends (suc n) zero l h = cc h
  no_ends (suc n) (suc k) l h = no_ends n k l h

  empty_rig-IsRigged : (unreliable : Bool) (n : ℕ) → IsRigged (empty_rig unreliable n)
  empty_rig-IsRigged unreliable n = record {
    ends = λ k l e at. absurd (no_ends n k l at);
    once = λ k l k' l' e at at'. absurd (no_ends n k l at);
    goes = λ k l e at. absurd (no_ends n k l at);
    live = λ k l e at. absurd (no_ends n k l at);
  }

  -- After any starts, restarts, crashes, connects and disconnects of servers, whatever the names of
  -- the links: a request that server `k` sends over its link to server `l` goes to the running server
  -- `l` if both are connected and there is one, and to nobody otherwise.
  pub links_lem :
      (unreliable : Bool) (n : ℕ) (ds : List Deed) (k l : ℕ) {cfg : Rig} {e : ℕ}
      → deeds g decode ds (empty_rig unreliable n) ≡ some cfg
      → end_of cfg.endnames k l ≡ some e
      → read_endname_info e cfg.net ≡ (
          if is_on cfg.connected k && is_on cfg.connected l
          then (do
            p ← cfg.net.servers l
            some (record { servername = l; server = p; reliable = cfg.net.reliable }))
          else none)
  unfolding read_endname_info
  links_lem unreliable n ds k l {cfg} {e} h at =
      let w = deeds-IsRigged ds (empty_rig unreliable n) h (empty_rig-IsRigged unreliable n) in
      let live = w.live k l e at in let goes = w.goes k l e at in rw (live, goes) refl
