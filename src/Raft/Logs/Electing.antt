-- ===== src/Raft/Logs/Electing.antt =====
-- The moves of elections in src/raft/raft.go as steps of one peer.
use spring.Common.{
  guard_passes, ℕ, ◌≡◌, ◌⊎◌, inl, inr, refl, none, some, List, true, false, arith, ap, sym, ◌∙◌,
  Bool-cases, get_elem?, >>=-eq-some,
}
use mathlib.Core.Option.{some-injective}
use spring.Raft.Types.{Gob, Command}
use spring.Raft.Vote.{election_tick, request_vote_handler, vote_stale}
use spring.Raft.Node.{
  Ballot, Event, election, vote_request, vote_reply, majority, crash, command, heartbeat, entries,
  note, step, own_vote, granted, refusal, entries_reply, installed, Node,
}
use spring.Raft.Cluster.{
  Cluster, Move, runs, elects, asks, answers, counts, crashes, run_node, elect, ask, answer,
  cluster_step, take_reply, is_own,
}
use spring.Raft.Cluster.Quorum.{take_out}
use spring.Raft.Logs.{is_apart, is_election, compact, install}
use spring.Raft.Logs.Quiet.{is_quiet}
use spring.Raft.Logs.Stepping.{IsStepped}
use spring.Raft.Node

-- What the peers other than a voter that is counted may do.
abbrev pub IsPlain : Event → Type 0
IsPlain e = (is_quiet e ≡ true) ⊎ (((x : Command) × (e ≡ command x)) ⊎ (e ≡ crash))

pub IsPlain-cases : (e : Event) → is_own e ≡ true → is_apart e ≡ false → IsPlain e
IsPlain-cases (vote_request now args) o a = inl refl
IsPlain-cases (election now ms) o a = inl refl
IsPlain-cases (vote_reply args) o a = inl refl
IsPlain-cases (majority vote) o a = absurd (cc o)
IsPlain-cases (refusal reply) o a = inl refl
IsPlain-cases (heartbeat now) o a = absurd (cc a)
IsPlain-cases (entries now args) o a = absurd (cc a)
IsPlain-cases (entries_reply to args reply) o a = inl refl
IsPlain-cases (compact index data') o a = absurd (cc a)
IsPlain-cases (install now args) o a = absurd (cc a)
IsPlain-cases (installed to args reply) o a = inl refl
IsPlain-cases (command x) o a = inr (inl (x, refl))
IsPlain-cases Node.apply o a = inl refl
IsPlain-cases crash o a = absurd (cc o)
IsPlain-cases Node.stop o a = inl refl

module _ (g : Gob) where
  pub run_node-IsStepped :
      (i : ℕ) (e : Event) (c d : Cluster) {ns : List Node}
      → run_node g i e c.nodes ≡ some ns
      → d.nodes ≡ ns
      → d.winners ≡ c.winners
      → (st : IsStepped g e c d) × (st.i ≡ i)
  unfolding run_node
  run_node-IsStepped i e c d {ns} h nodes winners =
      let (n, at, h1) = >>=-eq-some (get_elem? c.nodes i) _ h in
      let ((rf, vote), taken, h2) = >>=-eq-some (step g e n.peer) _ h1 in
      (
        record {
          i = i;
          n = n;
          at = at;
          rf = rf;
          vote = vote;
          taken = taken;
          nodes = nodes ∙ sym (some-injective _ ns h2);
          winners = winners;
        },
        refl,
      )

  pub runs-IsStepped :
      (i : ℕ) (e : Event) (c : Cluster) {d : Cluster}
      → cluster_step g (runs i e) c ≡ some d
      → (is_own e ≡ true) × ((st : IsStepped g e c d) × (st.i ≡ i))
  unfolding cluster_step
  runs-IsStepped i e c {d} h =
      let (own, h1) = guard_passes (is_own e) _ h in
      let (ns, ran, h2) = >>=-eq-some (run_node g i e c.nodes) _ h1 in
      let done = some-injective _ d h2 in
      (
        own,
        run_node-IsStepped i e c d ran (ap (λ (x : Cluster). x.nodes) (sym done))
            (ap (λ (x : Cluster). x.winners) (sym done)),
      )

  crashes-IsStepped :
      (i : ℕ) (c : Cluster) {d : Cluster}
      → cluster_step g (crashes i) c ≡ some d
      → IsStepped g crash c d
  unfolding cluster_step
  crashes-IsStepped i c {d} h =
      let (ns, ran, h2) = >>=-eq-some (run_node g i crash c.nodes) _ h in
      let done = some-injective _ d h2 in
      (run_node-IsStepped i crash c d ran (ap (λ (x : Cluster). x.nodes) (sym done))
        (ap (λ (x : Cluster). x.winners) (sym done))).0

  elects-IsStepped :
      (i now ms : ℕ) (c : Cluster) {d : Cluster}
      → elect g i now ms c ≡ some d
      → IsStepped g (election now ms) c d
  unfolding elect step
  elects-IsStepped i now ms c {d} h =
      let (n, at, h1) = >>=-eq-some (get_elem? c.nodes i) _ h in
      let ((rf, sent), f, h2) = >>=-eq-some (election_tick g now ms n.peer) _ h1 in
      let done = some-injective _ d h2 in
      record {
        i = i;
        n = n;
        at = at;
        rf = rf;
        vote = own_vote sent;
        taken = rw (f, step) refl;
        nodes = ap (λ (x : Cluster). x.nodes) (sym done);
        winners = ap (λ (x : Cluster). x.winners) (sym done);
      }

  asks-IsStepped :
      (k to now : ℕ) (c : Cluster) {d : Cluster}
      → ask g k to now c ≡ some d
      → (e : Event) × (is_quiet e ≡ true) × IsStepped g e c d
  unfolding ask step
  asks-IsStepped k to now c {d} h =
      let (e, ek, h1) = >>=-eq-some (get_elem? c.elections k) _ h in
      let (left, out, h2) = >>=-eq-some (take_out to e.asked) _ h1 in
      let (n, at, h3) = >>=-eq-some (get_elem? c.nodes to) _ h2 in
      let ((rf, reply), f, h4) = >>=-eq-some (request_vote_handler g now e.args n.peer) _ h3 in
      let done = some-injective _ d h4 in
      (
        vote_request now e.args,
        refl,
        record {
          i = to;
          n = n;
          at = at;
          rf = rf;
          vote = granted e.args reply.vote_granted;
          taken = rw (f, step) refl;
          nodes = ap (λ (x : Cluster). x.nodes) (sym done);
          winners = ap (λ (x : Cluster). x.winners) (sym done);
        },
      )

  answers-IsStepped :
      (k to : ℕ) (c : Cluster) {d : Cluster}
      → answer g k to c ≡ some d
      → (e : Event) × (is_quiet e ≡ true) × IsStepped g e c d
  unfolding answer step
  answers-IsStepped k to c {d} h =
      let (e, ek, h1) = >>=-eq-some (get_elem? c.elections k) _ h in
      let ((reply, rest), out, h2) = >>=-eq-some (take_reply to e.replies) _ h1 in
      let (n, at, h3) = >>=-eq-some (get_elem? c.nodes e.args.candidate_id) _ h2 in
      let done = some-injective _ d h3 in
      (
        vote_reply e.args,
        refl,
        record {
          i = e.args.candidate_id;
          n = n;
          at = at;
          rf = (vote_stale e.args n.peer).0;
          vote = none;
          taken = refl;
          nodes = ap (λ (x : Cluster). x.nodes) (sym done);
          winners = ap (λ (x : Cluster). x.winners) (sym done);
        },
      )

  -- Every move but a count is a plain step of a peer.
  pub moves-IsStepped :
      (m : Move) (c : Cluster) {d : Cluster}
      → is_election m ≡ true
      → cluster_step g m c ≡ some d
      → ((k : ℕ) × (to : ℕ) × (m ≡ counts k to)) ⊎ ((e : Event) × IsPlain e × IsStepped g e c d)
  unfolding cluster_step
  moves-IsStepped (runs i e) c apart h =
      let (own, (st, _)) = runs-IsStepped i e c h in
      let far : is_apart e ≡ false = elim (Bool-cases (is_apart e)) [
        | inl y ↦ absurd (ground (arith, apart, y))
        | inr y ↦ y
      ] in
      inr (e, IsPlain-cases e own far, st)
  moves-IsStepped (elects i now ms) c apart h =
      inr (election now ms, inl refl, elects-IsStepped i now ms c h)
  moves-IsStepped (asks k to now) c apart h =
      let (e, q, st) = asks-IsStepped k to now c h in inr (e, inl q, st)
  moves-IsStepped (answers k to) c apart h =
      let (e, q, st) = answers-IsStepped k to c h in inr (e, inl q, st)
  moves-IsStepped (counts k to) c apart h = inl (k, to, refl)
  moves-IsStepped (crashes i) c apart h = inr (crash, inr (inr refl), crashes-IsStepped i c h)
