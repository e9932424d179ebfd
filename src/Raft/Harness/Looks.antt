-- ===== src/Raft/Harness/Looks.antt =====
-- `checkOneLeader` of src/raft/config.go during runs of the peers of src/raft/raft.go. It reads the
-- servers one after the other, and the peers go on in between.
use spring.Common.{
  ℕ, zero, suc, ◌+◌, ◌≤◌, ◌<◌, ◌^◌, Bool, true, false, ◌&&◌, List, [], ◌∷◌, Option, none, some,
  ◌==◌, length, get_elem?, ◌≡◌, ◌≢◌, ◌⊎◌, inl, inr, refl, sym, ap, ◌∙◌, subst, arith, Bool-cases,
  Option-cases,
}
use mathlib.Core.Option.{some-injective}
use spring.Raft.Types.{Gob}
use spring.Raft.Index.{is_leader}
use spring.Raft.Node.{Node}
use spring.Raft.Node.OneVote.{Voted}
use spring.Raft.Logs.{Act, Traffic, take_acts, are_prompt, no_traffic}
use spring.Raft.Logs.Sound.{Led}
use spring.Raft.Logs.Matched.{IsMatched, Next, Next-refl, Next-trans, won_once}
use spring.Raft.Logs.Runs.{start_led, no_traffic-IsMatched, take_acts-IsMatched}
use spring.Raft.Harness.{Seen, is_connected_leader, passed, check_one_leader}
use spring.Raft.Harness.Leaders.{leading}
use spring.Raft.Harness.Elected.{AtMostOne, AllAtMostOne, check_one_leader-passes}

-- One server is read: whether it is connected, what the peers have done since the last one was read,
-- and what that has led to.
abbrev pub Glance : Type 0
Glance = Bool × List Act × Traffic

abbrev pub in_front : Bool → Option Node → List Seen → List Seen
in_front connected none rest = []
in_front connected (some n) rest = (connected, n.peer) ∷ rest

-- One round of the check: the servers from index `i` on.
abbrev pub seen_from : ℕ → List Glance → List Seen
seen_from i [] = []
seen_from i ((connected, acts, s) ∷ look) =
    in_front connected (get_elem? s.cluster.nodes i) (seen_from (i + 1) look)

abbrev pub last_of : Traffic → List Glance → Traffic
last_of s [] = s
last_of s ((connected, acts, s') ∷ look) = last_of s' look

-- Each glance is what the acts before it lead to; votes are counted in the terms of their elections.
abbrev pub IsLook : Gob → Traffic → List Glance → Type 0
IsLook g s [] = Unit
IsLook g s ((connected, acts, s') ∷ look) =
    (are_prompt g acts s ≡ true) × (take_acts g acts s ≡ some s') × IsLook g s' look

abbrev pub AllLooks : Gob → Traffic → List (List Glance) → Type 0
AllLooks g s [] = Unit
AllLooks g s (look ∷ looks) = IsLook g s look × AllLooks g (last_of s look) looks

abbrev pub rounds_of : List (List Glance) → List (List Seen)
rounds_of [] = []
rounds_of (look ∷ looks) = seen_from 0 look ∷ rounds_of looks

abbrev LeadsAt : ℕ → List Seen → ℕ → Type 0
LeadsAt t ss d =
    (s : Seen) × (get_elem? ss d ≡ some s) × (is_connected_leader s ≡ true) × (s.1.current_term ≡ t)

and_right : (a b : Bool) → (a && b) ≡ true → b ≡ true
and_right true b h = h
and_right false b h = absurd (cc h)

leads_one : (t k : ℕ) (ss : List Seen) → 0 < length (leading t k ss) → (d : ℕ) × LeadsAt t ss d
leads_one t k [] h = absurd (omega (arith, h))
leads_one t k (s ∷ ss) h = elim (Bool-cases (is_connected_leader s && (s.1.current_term == t))) [
  | inl y ↦ (0, (s, refl, ground (arith, y), ground (arith, y)))
  | inr y ↦ (let (d, l) = leads_one t (k + 1) ss (ground (arith, h, y)) in (suc d, l))
]

-- Two connected leaders of a term stand at different indices.
leads_two :
    (t k : ℕ) (ss : List Seen)
    → 1 < length (leading t k ss)
    → (d e : ℕ) × (d ≢ e) × LeadsAt t ss d × LeadsAt t ss e
leads_two t k [] h = absurd (omega (arith, h))
leads_two t k (s ∷ ss) h = elim (Bool-cases (is_connected_leader s && (s.1.current_term == t))) [
  | inl y ↦
      (let (d, l) = leads_one t (k + 1) ss (ground (arith, h, y)) in
        (
          0,
          suc d,
          λ z. absurd (omega (arith, z)),
          (s, refl, ground (arith, y), ground (arith, y)),
          l,
        ))
  | inr y ↦
      (let (d, e, ne, l, l') = leads_two t (k + 1) ss (ground (arith, h, y)) in
        (suc d, suc e, λ z. ne (omega (arith, z)), l, l'))
]

module _ (g : Gob) (size : ℕ) (small : size < 2 ^ 32) where
  -- A leader that has been seen has won its term by the end of the look.
  abbrev AllWon : ℕ → List Seen → Traffic → Type 0
  AllWon i ss s =
      (d : ℕ) (x : Seen)
      → get_elem? ss d ≡ some x
      → is_connected_leader x ≡ true
      → Voted x.1.current_term (i + d) s.cluster.winners

  look-AllWon :
      (i : ℕ) (look : List Glance) (s : Traffic) (led : Led)
      → IsMatched g size s led
      → IsLook g s look
      → Next g size s led (last_of s look) × AllWon i (seen_from i look) (last_of s look)
  look-AllWon i [] s led m h = (Next-refl g size s led m, λ d x at l. absurd (cc at))
  look-AllWon i ((connected, acts, s') ∷ look) s led m (prompt, run, rest) =
      let one = take_acts-IsMatched g size small acts s led m prompt run in
      let (more, won) = look-AllWon (i + 1) look s' one.led' one.matched rest in
      (
        Next-trans g size s s' (last_of s' look) led one more,
        elim (Option-cases (get_elem? s'.cluster.nodes i)) [
          | inl gone ↦ subst seen_here (sym gone) (λ d x at l. absurd (cc at))
          | inr (n, here) ↦
              subst seen_here (sym here)
                (seen_won n more.won (one.matched.members i n here).leads won)
        ],
      )
    where
      seen_here : Option Node → Type 0
      seen_here o = AllWon i (in_front connected o (seen_from (i + 1) look)) (last_of s' look)

      seen_won :
          (n : Node)
          → ((t c : ℕ) → Voted t c s'.cluster.winners → Voted t c (last_of s' look).cluster.winners)
          → (is_leader n.peer.state ≡ true → Voted n.peer.current_term i s'.cluster.winners)
          → AllWon (i + 1) (seen_from (i + 1) look) (last_of s' look)
          → AllWon i ((connected, n.peer) ∷ seen_from (i + 1) look) (last_of s' look)
      seen_won n carry leads won zero x at l =
          let same : (connected, n.peer) ≡ x = some-injective (connected, n.peer) x at in
          let l' : is_leader n.peer.state ≡ true =
            and_right connected _ (ap is_connected_leader same ∙ l) in
          let v = carry n.peer.current_term i (leads l') in
          subst (λ (y : Seen). Voted y.1.current_term (i + 0) (last_of s' look).cluster.winners)
            same
            (subst (λ j. Voted n.peer.current_term j (last_of s' look).cluster.winners)
              (omega arith) v)
      seen_won n carry leads won (suc d) x at l =
          subst (λ j. Voted x.1.current_term j (last_of s' look).cluster.winners) (omega arith)
            (won d x at l)

  look-AtMostOne :
      (look : List Glance) (s : Traffic) (led : Led)
      → IsMatched g size s led
      → IsLook g s look
      → AtMostOne (seen_from 0 look)
  look-AtMostOne look s led m h t =
      let (next, won) = look-AllWon 0 look s led m h in
      let end = last_of s look in
      elim (few_cases (length (leading t 0 (seen_from 0 look)))) [
        | inl few ↦ few
        | inr two ↦
            (let (d, e, ne, (x, at, l, xt), (y, at', l', yt)) =
                leads_two t 0 (seen_from 0 look) two in
              let won_d = subst (λ u. Voted u (0 + d) end.cluster.winners) xt (won d x at l) in
              let won_e = subst (λ u. Voted u (0 + e) end.cluster.winners) yt (won e y at' l') in
              let same = won_once g size end next.led' next.matched t (0 + d) (0 + e) won_d won_e in
              absurd (ne (omega (arith, same))))
      ]
    where
      few_cases : (n : ℕ) → (n ≤ 1) ⊎ (1 < n)
      few_cases zero = inl (omega arith)
      few_cases (suc zero) = inl (omega arith)
      few_cases (suc (suc n)) = inr (omega arith)

  looks-AllAtMostOne :
      (looks : List (List Glance)) (s : Traffic) (led : Led)
      → IsMatched g size s led
      → AllLooks g s looks
      → AllAtMostOne (rounds_of looks)
  looks-AllAtMostOne [] s led m h = tt
  looks-AllAtMostOne (look ∷ looks) s led m (here, rest) =
      let next = (look-AllWon 0 look s led m here).0 in
      (
        look-AtMostOne look s led m here,
        looks-AllAtMostOne looks (last_of s look) next.led' next.matched rest,
      )

  -- `checkOneLeader`, while fewer than 2^32 peers run that started with empty persisters, never take
  -- a snapshot and count votes in the terms of their elections, returns a leader if it sees a
  -- connected leader in some round. It does not fail on account of two leaders of one term.
  pub leaders_pass :
      (looks : List (List Glance)) (k t : ℕ) {look : List Seen}
      → AllLooks g (no_traffic g size) looks
      → get_elem? (rounds_of looks) k ≡ some look
      → leading t 0 look ≢ []
      → (i : ℕ) × (check_one_leader (rounds_of looks) ≡ passed i)
  leaders_pass looks k t h at ne =
      check_one_leader-passes (rounds_of looks) k t
        (looks-AllAtMostOne looks (no_traffic g size) start_led (no_traffic-IsMatched g size) h) at
        ne
