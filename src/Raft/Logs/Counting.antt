-- ===== src/Raft/Logs/Counting.antt =====
-- A counted vote in src/raft/raft.go, and what holds of the logs in the network.
use spring.Common.{
  ℕ, ◌≡◌, inl, inr, refl, none, some, ◌∷◌, true, ◌==◌, ==_iff, arith, ap, sym, ◌∙◌, subst,
  Bool-cases, get_elem?, set, get_elem?-set_ne, get_elem?-set_self, lt-length, >>=-eq-some,
}
use mathlib.Core.List.{append-nil, []}
use mathlib.Core.Option.{some-injective}
use spring.Raft.Types.{Gob}
use spring.Raft.Vote.{wins, add_vote, become_leader}
use spring.Raft.Node.{Node, majority, step}
use spring.Raft.Node.OneVote.{Voted}
use spring.Raft.Cluster.{Cluster, run_node, count, counts}
use spring.Raft.Cluster.Quorum.{take_out}
use spring.Raft.Cluster.Counting.{run_node-IsPeers}
use spring.Raft.Cluster.Fair.{IsSafe, IsElected, CastAt, Grows, AllFair-at, ==-ne}
use spring.Raft.Cluster.Safety.{elected-once, AllElected-at}
use spring.Raft.Logs.{Traffic, is_prompt, moves}
use spring.Raft.Logs.Sound.{Led}
use spring.Raft.Logs.Matched.{IsMember, IsMatched, Next, AllPieces, AllPieces-Grown, AllPieces-wins}
use spring.Raft.Logs.Winning.{won_led, winner-IsMember, others-IsMember}
use spring.Raft.Logs.Stepping.{IsStepped, idle-IsMatched}

-- A candidate becomes the leader of the term of its election.
pub record IsWon (c d : Cluster) : Type 0 where
  pub i : ℕ
  pub n : Node
  pub at : get_elem? c.nodes i ≡ some n
  pub nodes : d.nodes ≡ set c.nodes i (record { peer = become_leader n.peer; cast = n.cast })
  pub winners : d.winners ≡ (n.peer.current_term, i) ∷ c.winners
  pub own : CastAt d.nodes i n.peer.current_term i
  pub grows : Grows c.nodes d.nodes

module _ (g : Gob) (size : ℕ) (s : Traffic) (led : Led) (m : IsMatched g size s led) (d : Cluster)
    (safe : IsSafe g size d) where
  won-IsMatched : IsWon s.cluster d → Next g size s led (record { cluster = d; sent = s.sent })
  won-IsMatched w =
      let ws = s.cluster.winners in
      let t = w.n.peer.current_term in
      let after : Node = record { peer = become_leader w.n.peer; cast = w.n.cast } in
      let there : get_elem? d.nodes w.i ≡ some after =
        ap (λ ns. get_elem? ns w.i) w.nodes
        ∙ get_elem?-set_self s.cluster.nodes w.i after (lt-length s.cluster.nodes w.i w.at) in
      let back : (t, w.i) ∷ ws ≡ d.winners = sym w.winners in
      let elected : (c : ℕ) → Voted t c ((t, w.i) ∷ ws) → IsElected size d.nodes t c =
        λ c v. AllElected-at size d.nodes d.winners t c safe.elected (subst (Voted t c) back v) in
      let once : (c : ℕ) → Voted t c ws → c ≡ w.i = λ c v.
        elected-once g size d t c w.i safe (elected c (inr v)) (elected w.i (inl (refl, refl))) in
      let mine = m.members w.i w.n w.at in
      let (led', fresh) = won_led g ws led w.i w.n mine once in
      let durable = (m.safe.peers.right w.i w.n w.at).sound.durable in
      let winner = winner-IsMember g ws led w.i w.n led' fresh w.n.cast mine durable in
      record {
        led' = led';
        won = λ u c v. subst (Voted u c) back (inr v);
        longer = λ u c v. ([], fresh.old u c v ∙ sym (append-nil (led u)));
        matched = record {
          safe = safe;
          members = λ j k at.
              subst (λ x. IsMember g x led' j k) back
                (elim (Bool-cases (w.i == j)) [
                  | inl y ↦
                      (let i_j = (==_iff w.i j).0 y in
                        let same : after ≡ k =
                          some-injective after k (sym there ∙ ap (get_elem? d.nodes) i_j ∙ at) in
                        subst (λ x. IsMember g ((t, w.i) ∷ ws) led' x k) i_j
                          (subst (IsMember g ((t, w.i) ∷ ws) led' w.i) same winner))
                  | inr y ↦
                      (let ne = ==-ne w.i j y in
                        let at' : get_elem? s.cluster.nodes j ≡ some k =
                          sym (get_elem?-set_ne s.cluster.nodes w.i j after ne)
                          ∙ ap (λ ns. get_elem? ns j) (sym w.nodes)
                          ∙ at in
                        others-IsMember g ws led w.i w.n led' fresh j k (λ e. ne (sym e))
                          (m.members j k at'))
                ]);
          pieces =
              subst (λ x. AllPieces x led' s.sent) back
                (AllPieces-wins ws (t, w.i) led' s.sent
                  (AllPieces-Grown ws led led' fresh.grown s.sent m.pieces));
          selves = λ u c v. elim (subst (Voted u c) w.winners v) [
            | inl (e, f) ↦
                subst (λ x. CastAt d.nodes c x c) (sym e)
                  (subst (λ x. CastAt d.nodes x t x) (sym f) w.own)
            | inr v' ↦ w.grows c u c (m.selves u c v')
          ];
        };
      }

  -- The vote is counted in the term of its election.
  pub count-IsMatched :
      (k to : ℕ)
      → is_prompt (moves (counts k to)) s ≡ true
      → count g k to s.cluster ≡ some d
      → Next g size s led (record { cluster = d; sent = s.sent })
  unfolding count step is_prompt run_node
  count-IsMatched k to prompt h =
      let c = s.cluster in
      let (e, ek, h1) = >>=-eq-some (get_elem? c.elections k) _ h in
      let (left, out, h2) = >>=-eq-some (take_out to e.passed) _ h1 in
      let i = e.args.candidate_id in
      let (n, at, h3) = >>=-eq-some (get_elem? c.nodes i) _ h2 in
      let (ns, ran, h4) = >>=-eq-some (run_node g i (majority e.vote) c.nodes) _ h3 in
      let done = some-injective _ d h4 in
      let nodes : d.nodes ≡ ns = ap (λ (x : Cluster). x.nodes) (sym done) in
      let winners = ap (λ (x : Cluster). x.winners) (sym done) in
      let term : n.peer.current_term ≡ e.args.term = ground (arith, prompt, ek, at) in
      elim (Bool-cases (wins (add_vote e.vote) n.peer)) [
        | inl won ↦
            (let grows = (run_node-IsPeers g size i (majority e.vote) c.nodes m.safe.peers ran).1 in
              let fair = AllFair-at size c.nodes c.elections k m.safe.fair ek in
              won-IsMatched (record {
                i = i;
                n = n;
                at = at;
                nodes = nodes ∙ ground (arith, ran, at, won);
                winners = winners ∙ (rw (won, term) refl);
                own =
                    subst (λ u. CastAt d.nodes i u i) (sym term)
                      (subst (λ l. CastAt l i e.args.term i) (sym nodes)
                        (grows i e.args.term i fair.own));
                grows = subst (Grows c.nodes) (sym nodes) grows;
              }))
        | inr lost ↦
            (let st : IsStepped g (majority e.vote) c d = record {
              i = i;
              n = n;
              at = at;
              rf = n.peer;
              vote = none;
              taken = rw lost refl;
              nodes = nodes ∙ ground (arith, ran, at, lost);
              winners = winners ∙ (rw lost refl);
            } in
              idle-IsMatched g size s led m d safe (majority e.vote) st refl)
      ]
