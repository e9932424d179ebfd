-- ===== src/Raft/Cluster/Counting.antt =====
-- Counting a vote in src/raft/raft.go keeps the elections fair, and a winner has a majority.
use spring.Common.{
  ℕ, ◌+◌, ◌/◌, ◌%◌, ◌^◌, ◌≤◌, ◌<◌, Bool, true, ◌&&◌, List, ◌∷◌, some, ◌≡◌, inl, inr, ◌==◌, ==_iff,
  if◌then◌else◌, ltb, length, get_elem?, set, arith, subst, Bool-cases, >>=-eq-some, lt-length,
}
use mathlib.Core.Option.{some-injective}
use spring.Raft.Types.{Gob}
use spring.Raft.Vote.{wins, add_vote}
use spring.Raft.Node.{Node, Event, majority, step}
use spring.Raft.Cluster.{Election, Cluster, run_node, count}
use spring.Raft.Cluster.Quorum.{times, take_out, times-take_out}
use spring.Raft.Cluster.Fair.{
  CastAt, Grows, IsPeers, IsFair, IsSafe, uses, stepped, stepped-Grows, stepped-IsPeers, AllFair-at,
  AllFair-set, AllFair-Grows, AllElected-Grows, IsFair-Grows,
}

-- A winner with the voters counted is a majority.
quorum_once : (i x : ℕ) (xs : List ℕ) → times i xs ≡ 0 → times x xs ≤ 1 → times x (i ∷ xs) ≤ 1
quorum_once i x xs other once = elim (Bool-cases (i == x)) [
  | inl y ↦
      (let here = subst (λ z. times z xs ≡ 0) ((==_iff i x).0 y) other in
        rw y (omega (arith, here)))
  | inr y ↦ rw y (omega (arith, once))
]

quorum_inside :
    (size i x : ℕ) (xs : List ℕ) → i < size → size ≤ x → times x xs ≡ 0 → times x (i ∷ xs) ≡ 0
quorum_inside size i x xs l b none_there = ground (arith, l, b, none_there)

quorum_more :
    (size peers vote len : ℕ) (own : Bool)
    → size < 2 ^ 32
    → peers ≡ size
    → vote ≡ (1 + len) % 2 ^ 32
    → (ltb (peers / 2 % 2 ^ 32) (add_vote vote) && own) ≡ true
    → size < (2 + len) + (2 + len)
quorum_more size peers vote len own l e v h = ground arith

module _ (g : Gob) (size : ℕ) where
  pub run_node-IsPeers :
      (i : ℕ) (e : Event) (ns : List Node) {ms : List Node}
      → IsPeers g size ns
      → run_node g i e ns ≡ some ms
      → IsPeers g size ms × Grows ns ms
  unfolding run_node
  run_node-IsPeers i e ns {ms} p h =
      let (n, at, h') = >>=-eq-some (get_elem? ns i) _ h in
      let ((rf, vote), s, h'') = >>=-eq-some (step g e n.peer) _ h' in
      let done : stepped g size ns p i n at e rf vote s ≡ ms = cc h'' in
      (
        subst (IsPeers g size) done (stepped-IsPeers g size ns p i n at e rf vote s),
        subst (Grows ns) done (stepped-Grows g size ns p i n at e rf vote s),
      )

  -- A vote is counted, and may win the election.
  count_with :
      (k to : ℕ) (c : Cluster) (e : Election) (left : List ℕ) (n : Node) (ns : List Node)
      → size < 2 ^ 32
      → IsSafe g size c
      → get_elem? c.elections k ≡ some e
      → take_out to e.passed ≡ some left
      → get_elem? c.nodes e.args.candidate_id ≡ some n
      → IsPeers g size ns
      → Grows c.nodes ns
      → IsSafe g size (record {
        nodes = ns;
        elections =
            set c.elections k
              (record e { vote = add_vote e.vote; passed = left; counted = to ∷ e.counted });
        winners =
            if wins (add_vote e.vote) n.peer
            then (e.args.term, e.args.candidate_id) ∷ c.winners
            else c.winners;
      })
  unfolding wins
  count_with k to c e left n ns l s ek out at peers' grows =
      let i = e.args.candidate_id in
      let old =
        IsFair-Grows c.nodes ns grows size e (AllFair-at size c.nodes c.elections k s.fair ek) in
      let e' = record e { vote = add_vote e.vote; passed = left; counted = to ∷ e.counted } in
      let moved_one = times-take_out to e.passed out in
      let same : (x : ℕ) → uses x e' ≡ uses x e = λ x. omega (arith, moved_one x) in
      let cast' : (x : ℕ)
          → 0 < times x (to ∷ e.counted) + times x left
          → CastAt ns x e.args.term i =
        λ x b. old.cast x (omega (arith, b, moved_one x)) in
      let fair' : IsFair size ns e' = record {
        own = old.own;
        once = λ x. omega (arith, same x, old.once x);
        other = omega (arith, same i, old.other);
        inside = λ x b. omega (arith, same x, old.inside x b);
        vote = ground (arith, old.vote);
        cast = cast';
        said = old.said;
      } in
      let still = AllElected-Grows c.nodes ns grows size c.winners s.elected in
      record {
        peers = peers';
        fair =
            AllFair-set size ns c.elections k e'
              (AllFair-Grows c.nodes ns grows size c.elections s.fair) fair';
        elected = elim (Bool-cases (wins (add_vote e.vote) n.peer)) [
          | inl won ↦ rw won (
            record {
              quorum = i ∷ to ∷ e.counted;
              once = λ x.
                  quorum_once i x (to ∷ e.counted) (omega (arith, same i, old.other))
                    (omega (arith, same x, old.once x));
              inside = λ x b.
                  quorum_inside size i x (to ∷ e.counted)
                    (omega (arith, lt-length c.nodes i at, s.peers.all)) b
                    (omega (arith, same x, old.inside x b));
              more = omega (
                arith,
                quorum_more size n.peer.peers e.vote (length e.counted) _ l (s.peers.peers i n at)
                    old.vote won,
              );
              cast = λ x b. elim (Bool-cases (i == x)) [
                | inl y ↦ subst (λ z. CastAt ns z e.args.term i) ((==_iff i x).0 y) old.own
                | inr y ↦ cast' x (ground (arith, b, y))
              ];
            },
            still,
          )
          | inr lost ↦ rw lost still
        ];
      }

  pub count-IsSafe :
      (k to : ℕ) (c : Cluster) {d : Cluster}
      → size < 2 ^ 32
      → IsSafe g size c
      → count g k to c ≡ some d
      → IsSafe g size d
  unfolding count
  count-IsSafe k to c {d} l s h =
      let (e, ek, h1) = >>=-eq-some (get_elem? c.elections k) _ h in
      let (left, out, h2) = >>=-eq-some (take_out to e.passed) _ h1 in
      let (n, at, h3) = >>=-eq-some (get_elem? c.nodes e.args.candidate_id) _ h2 in
      let (ns, ran, h4) =
        >>=-eq-some (run_node g e.args.candidate_id (majority e.vote) c.nodes) _ h3 in
      let (p, grows) = run_node-IsPeers e.args.candidate_id (majority e.vote) c.nodes s.peers ran in
      subst (IsSafe g size) (some-injective _ d h4)
        (count_with k to c e left n ns l s ek out at p grows)
