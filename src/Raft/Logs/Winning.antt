-- ===== src/Raft/Logs/Winning.antt =====
-- A win in src/raft/raft.go: the log of the new leader is the one of its term.
use spring.Common.{
  ℕ, ◌≡◌, ◌≢◌, ◌⊎◌, inl, inr, refl, List, [], ◌∷◌, ◌==◌, ==_iff, if◌then◌else◌, arith, ap, sym, ◌∙◌,
  subst, Bool-cases,
}
use spring.Raft.Types.{Gob, Log}
use spring.Raft.Vote.{become_leader}
use spring.Raft.Node.{Node, Ballot, restart}
use spring.Raft.Node.Durable.{IsDurable}
use spring.Raft.Node.OneVote.{Voted}
use spring.Raft.Logs.Sound.{Led, IsLed, Won, Grown, IsLed-Grown, IsLed-wins}
use spring.Raft.Logs.Matched.{IsMember}

Won-cases : (ws : List Ballot) (t : ℕ) → Won ws t ⊎ (Won ws t → ⊥)
Won-cases [] t = inr (λ w. w.1)
Won-cases ((u, b) ∷ ws) t = elim (Bool-cases (t == u)) [
  | inl y ↦ inl (b, inl ((==_iff t u).0 y, refl))
  | inr y ↦ elim (Won-cases ws t) [
    | inl (c, v) ↦ inl (c, inr v)
    | inr never ↦ inr (λ w. elim w.1 [ inl (e, f) ↦ ground (arith, e, y) | inr v ↦ never (w.0, v) ])
  ]
]

-- `led'` holds the log `l` for term `t`, and what `led` holds for the terms won before.
pub record IsNewLed (ws : List Ballot) (t : ℕ) (l : List Log) (led led' : Led) : Type 0 where
  pub grown : Grown ws led led'
  pub old : (u c : ℕ) → Voted u c ws → led' u ≡ led u
  pub new : led' t ≡ l

abbrev led_with : ℕ → List Log → Led → Led
led_with t l led u = if u == t then l else led u

led_with-other : (t : ℕ) (l : List Log) (led : Led) (u : ℕ) → u ≢ t → led_with t l led u ≡ led u
led_with-other t l led u ne = elim (Bool-cases (u == t)) [
  | inl y ↦ absurd (ne ((==_iff u t).0 y))
  | inr y ↦ rw y refl
]

new_led :
    (ws : List Ballot) (t : ℕ) (l : List Log) (led : Led)
    → (Won ws t → led t ≡ l)
    → (led' : Led) × IsNewLed ws t l led led'
new_led ws t l led again = elim (Won-cases ws t) [
  | inl w ↦ (led, record { grown = λ u. inl refl; old = λ u c v. refl; new = again w })
  | inr fresh ↦
      (let old : (u c : ℕ) → Voted u c ws → led_with t l led u ≡ led u =
          λ u c v. led_with-other t l led u (λ e. fresh (c, subst (λ x. Voted x c ws) e v)) in
        (
          led_with t l led,
          record {
            grown = λ u. elim (Won-cases ws u) [
              | inl (c, v) ↦ inl (old u c v)
              | inr never ↦ inr (inl never)
            ];
            old = old;
            new = ground arith;
          },
        ))
]

module _ (g : Gob) (ws : List Ballot) (led : Led) (i : ℕ) (n : Node) where
  pub won_led :
      IsMember g ws led i n
      → ((c : ℕ) → Voted n.peer.current_term c ws → c ≡ i)
      → (led' : Led) × IsNewLed ws n.peer.current_term n.peer.log led led'
  won_led m once =
      let t = n.peer.current_term in
      new_led ws t n.peer.log led (λ w. sym (m.own (subst (λ c. Voted t c ws) (once w.0 w.1) w.1)))

  module _ (led' : Led) (fresh : IsNewLed ws n.peer.current_term n.peer.log led led') where
    abbrev won : List Ballot
    won = (n.peer.current_term, i) ∷ ws

    still-IsLed : (l : List Log) → IsLed ws led l → IsLed won led' l
    still-IsLed l s =
        IsLed-wins ws won led' l (λ t w. (w.0, inr w.1)) (IsLed-Grown ws led led' l fresh.grown s)

    pub winner-IsMember :
        (cast : List Ballot)
        → IsMember g ws led i n
        → IsDurable g n.peer
        → IsMember g won led' i (record { peer = become_leader n.peer; cast = cast })
    unfolding become_leader
    winner-IsMember cast m d = record {
      whole = record { index = m.whole.index; term = m.whole.term; head = m.whole.head };
      logged = still-IsLed n.peer.log m.logged;
      own = λ v. sym fresh.new;
      saved = λ v. elim v [
        | inl (e, f) ↦ d.log ∙ sym fresh.new ∙ ap led' (sym e)
        | inr w ↦ m.saved w ∙ sym (fresh.old (restart g n.peer).current_term i w)
      ];
      leads = λ l. inl (refl, refl);
    }

    pub others-IsMember :
        (j : ℕ) (k : Node) → j ≢ i → IsMember g ws led j k → IsMember g won led' j k
    others-IsMember j k ne m = record {
      whole = m.whole;
      logged = still-IsLed k.peer.log m.logged;
      own = λ v. elim v [
        | inl (e, f) ↦ absurd (ne f)
        | inr w ↦ m.own w ∙ sym (fresh.old k.peer.current_term j w)
      ];
      saved = λ v. elim v [
        | inl (e, f) ↦ absurd (ne f)
        | inr w ↦ m.saved w ∙ sym (fresh.old (restart g k.peer).current_term j w)
      ];
      leads = λ l. inr (m.leads l);
    }
