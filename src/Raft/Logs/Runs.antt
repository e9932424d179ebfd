-- ===== src/Raft/Logs/Runs.antt =====
-- Runs of the peers of src/raft/raft.go with their messages keep what log matching rests on.
use spring.Common.{
  guard_passes, ℕ, zero, suc, ◌^◌, ◌<◌, ◌≡◌, inl, inr, refl, Option, none, some, List, [], ◌∷◌,
  Bool, true, ◌&&◌, arith, ap, sym, ◌∙◌, subst, get_elem?, >>=-eq-some,
}
use mathlib.Core.Option.{some-injective}
use spring.Raft.Types.{Gob, Log}
use spring.Raft.Persist.{make}
use spring.Raft.Leader.{heartbeat_tick}
use spring.Raft.Node.{Event, heartbeat, entries, newborn}
use spring.Raft.Cluster.{Cluster, Move, runs, cluster_step}
use spring.Raft.Cluster.Fair.{IsSafe}
use spring.Raft.Cluster.Safety.{cluster_step-IsSafe, founded-IsSafe, newborns-at}
use spring.Raft.Logs.{
  Traffic, Act, moves, sends, delivers, take_act, take_acts, send_entries, deliver, posted,
  is_prompt, are_prompt, no_traffic, is_election,
}
use spring.Raft.Logs.Sound.{Led, blank}
use spring.Raft.Logs.Matched.{
  IsMember, IsMatched, Next, Next-refl, Next-trans, AllPieces-at, IsPiece,
}
use spring.Raft.Logs.Sending.{posted-AllPieces}
use spring.Raft.Logs.Stepping.{
  IsStepped, quiet-IsMatched, crash-IsMatched, arrival-IsMatched, command-IsMatched,
}
use spring.Raft.Logs.Electing.{IsPlain, moves-IsStepped, runs-IsStepped}
use spring.Raft.Logs.Counting.{count-IsMatched}

-- A peer that starts with an empty persister.
newborn-IsMember : (g : Gob) (size i : ℕ) (led : Led) → IsMember g [] led i (newborn g size i)
unfolding make
newborn-IsMember g size i led = record {
  whole = record { index = refl; term = refl; head = refl };
  logged = record {
    good = λ j e pj at. absurd (past j e pj at);
    won = λ j e pj at. absurd (past j e pj at);
    head = refl;
  };
  own = λ v. absurd v;
  saved = λ v. absurd v;
  leads = λ l. absurd (cc l);
}
  where
    past : (j : ℕ) (e : Log) → 0 < j → get_elem? (blank ∷ []) j ≡ some e → ⊥
    past zero e pj at = omega (arith, pj)
    past (suc j) e pj at = cc at

abbrev pub start_led : Led
start_led t = []

pub no_traffic-IsMatched : (g : Gob) (size : ℕ) → IsMatched g size (no_traffic g size) start_led
no_traffic-IsMatched g size = record {
  safe = founded-IsSafe g size;
  members = λ i n at.
      subst (IsMember g [] start_led i)
        (sym (newborns-at g size 0 size i at ∙ ap (newborn g size) (omega arith)))
        (newborn-IsMember g size i start_led);
  pieces = tt;
  selves = λ t c v. absurd v;
}

module _ (g : Gob) (size : ℕ) (small : size < 2 ^ 32) where
  plain-IsMatched :
      (e : Event) (s : Traffic) (led : Led) (d : Cluster)
      → IsMatched g size s led
      → IsSafe g size d
      → IsPlain e
      → IsStepped g e s.cluster d
      → Next g size s led (record { cluster = d; sent = s.sent })
  plain-IsMatched e s led d m safe (inl q) st = quiet-IsMatched g size s led m d safe e st [] q tt
  plain-IsMatched e s led d m safe (inr (inl (x, q))) st =
      command-IsMatched g size s led m d safe e st x q
  plain-IsMatched e s led d m safe (inr (inr q)) st = crash-IsMatched g size s led m d safe e st q

  moves-IsMatched :
      (m : Move) (s : Traffic) (led : Led) {d : Cluster}
      → IsMatched g size s led
      → is_prompt (moves m) s ≡ true
      → is_election m ≡ true
      → cluster_step g m s.cluster ≡ some d
      → Next g size s led (record { cluster = d; sent = s.sent })
  unfolding cluster_step
  moves-IsMatched m s led {d} matched prompt apart h =
      let safe = cluster_step-IsSafe g size m s.cluster small matched.safe h in
      elim (moves-IsStepped g m s.cluster apart h) [
        | inl (k, to, q) ↦
            count-IsMatched g size s led matched d safe k to
              (subst (λ x. is_prompt (moves x) s ≡ true) q prompt)
              (ap (λ x. cluster_step g x s.cluster) (sym q) ∙ h)
        | inr (e, plain, st) ↦ plain-IsMatched e s led d matched safe plain st
      ]

  sends-IsMatched :
      (i now : ℕ) (s : Traffic) (led : Led) {s' : Traffic}
      → IsMatched g size s led
      → send_entries g i now s ≡ some s'
      → Next g size s led s'
  unfolding send_entries
  sends-IsMatched i now s led {s'} m h =
      let (n, at, h1) = >>=-eq-some (get_elem? s.cluster.nodes i) _ h in
      let ((rf, filled), tick, h2) = >>=-eq-some (heartbeat_tick now n.peer) _ h1 in
      let (d, st, h3) = >>=-eq-some (cluster_step g (runs i (heartbeat now)) s.cluster) _ h2 in
      let safe = cluster_step-IsSafe g size (runs i (heartbeat now)) s.cluster small m.safe st in
      let (_, (stepped, _)) = runs-IsStepped g i (heartbeat now) s.cluster st in
      let mine = m.members i n at in
      let pieces =
        posted-AllPieces s.cluster.winners led i now n.peer mine.whole.index mine.logged mine.leads
          (m.safe.peers.me i n at) tick in
      subst (Next g size s led) (some-injective _ s' h3) (
        quiet-IsMatched g size s led m d safe (heartbeat now) stepped (posted rf filled) refl
          pieces)

  delivers-IsMatched :
      (k now : ℕ) (s : Traffic) (led : Led) {s' : Traffic}
      → IsMatched g size s led
      → deliver g k now s ≡ some s'
      → Next g size s led s'
  unfolding deliver
  delivers-IsMatched k now s led {s'} m h =
      let ((to, args), at, h1) = >>=-eq-some (get_elem? s.sent k) _ h in
      let e = entries now args in
      let (d, st, h2) = >>=-eq-some (cluster_step g (runs to e) s.cluster) _ h1 in
      let safe = cluster_step-IsSafe g size (runs to e) s.cluster small m.safe st in
      let (_, (stepped, here)) = runs-IsStepped g to e s.cluster st in
      let piece = AllPieces-at s.cluster.winners led s.sent k m.pieces at in
      subst (Next g size s led) (some-injective _ s' h2) (
        arrival-IsMatched g size s led m d safe e stepped now args refl
          (subst (λ x. IsPiece s.cluster.winners led (x, args)) (sym here) piece))

  take_act-IsMatched :
      (a : Act) (s : Traffic) (led : Led) {s' : Traffic}
      → IsMatched g size s led
      → is_prompt a s ≡ true
      → take_act g a s ≡ some s'
      → Next g size s led s'
  unfolding take_act
  take_act-IsMatched (moves m) s led {s'} matched prompt h =
      let (apart, h1) = guard_passes (is_election m) _ h in
      let (d, st, h2) = >>=-eq-some (cluster_step g m s.cluster) _ h1 in
      subst (Next g size s led) (some-injective _ s' h2)
        (moves-IsMatched m s led matched prompt apart st)
  take_act-IsMatched (sends i now) s led matched prompt h = sends-IsMatched i now s led matched h
  take_act-IsMatched (delivers k now) s led matched prompt h =
      delivers-IsMatched k now s led matched h

  and_both : (a b : Bool) → (a && b) ≡ true → (a ≡ true) × (b ≡ true)
  and_both a b h = ground arith

  pub take_acts-IsMatched :
      (as' : List Act) (s : Traffic) (led : Led) {s' : Traffic}
      → IsMatched g size s led
      → are_prompt g as' s ≡ true
      → take_acts g as' s ≡ some s'
      → Next g size s led s'
  unfolding take_acts are_prompt
  take_acts-IsMatched [] s led {s'} matched prompt h =
      subst (Next g size s led) (some-injective s s' h) (Next-refl g size s led matched)
  take_acts-IsMatched (a ∷ as') s led {s'} matched prompt h =
      let (next, st, h1) = >>=-eq-some (take_act g a s) _ h in
      let (first, rest) = and_both (is_prompt a s) _ prompt in
      let one = take_act-IsMatched a s led matched first st in
      Next-trans g size s next s' led one
        (take_acts-IsMatched as' next one.led' one.matched (at_next st rest) h1)
    where
      at_next :
          {next : Traffic}
          → take_act g a s ≡ some next
          → elim (take_act g a s) [ none ↦ true | some s' ↦ are_prompt g as' s' ] ≡ true
          → are_prompt g as' next ≡ true
      at_next st rest =
          ap (λ (o : Option Traffic). elim o [ none ↦ true | some s' ↦ are_prompt g as' s' ])
            (sym st)
          ∙ rest
