-- ===== src/Raft/Cluster/Answering.antt =====
-- A vote request that is handled and a reply that comes back keep the elections of src/raft/raft.go
-- fair.
use spring.Common.{
  ℕ, ◌+◌, ◌≤◌, ◌<◌, Bool, true, false, not, ◌&&◌, List, [], ◌∷◌, none, some, ◌≡◌, refl, ◌⊎◌, inl,
  inr, ◌==◌, ==_iff, get_elem?, set, arith, ap, sym, ◌∙◌, subst, Bool-cases, Option-cases,
  >>=-eq-some,
}
use mathlib.Core.Option.{some-injective}
use spring.Raft.Types.{Raft, Gob, RequestVoteArgs, RequestVoteReply}
use spring.Raft.Vote.{request_vote_handler, others, vote_stale}
use spring.Raft.Node.{Node, vote_request, vote_reply, note, step, granted}
use spring.Raft.Node.OneVote.{Voted}
use spring.Raft.Cluster.{Election, Cluster, ask, answer, take_reply, vote_of}
use spring.Raft.Cluster.Quorum.{times, take_out, times-take_out}
use spring.Raft.Cluster.Fair.{
  CastAt, IsFair, AllCast, IsSafe, voters, uses, stepped_self, stepped-Grows, stepped-IsPeers,
  AllFair-at, AllFair-set, AllFair-Grows, AllElected-Grows, IsFair-Grows,
}

take_reply-voters :
    (to : ℕ) (rs : List (ℕ × RequestVoteReply)) {r : RequestVoteReply}
    {rest : List (ℕ × RequestVoteReply)}
    → take_reply to rs ≡ some (r, rest)
    → (z : ℕ) → times z (voters rs) ≡ times z (to ∷ voters rest)
unfolding take_reply
take_reply-voters to [] h z = absurd (cc h)
take_reply-voters to ((v, q) ∷ rs) {r} {rest} h z = elim (Option-cases (take_reply to rs)) [
  | inl e ↦ ground (arith, e)
  | inr ((q', rest'), e) ↦ ground (arith, take_reply-voters to rs e z)
]

take_reply-cases :
    (to v : ℕ) (q : RequestVoteReply) (rs : List (ℕ × RequestVoteReply)) {r : RequestVoteReply}
    {rest : List (ℕ × RequestVoteReply)}
    → take_reply to ((v, q) ∷ rs) ≡ some (r, rest)
    → ((v ≡ to) × (q ≡ r) × (rs ≡ rest))
      ⊎ ((mid : List (ℕ × RequestVoteReply)) × (take_reply to rs ≡ some (r, mid))
          × ((v, q) ∷ mid ≡ rest))
unfolding take_reply
take_reply-cases to v q rs {r} {rest} h = elim (Bool-cases (v == to)) [
  | inl y ↦ inl ((==_iff v to).0 y, ground (arith, y), ground (arith, y))
  | inr y ↦ elim (Option-cases (take_reply to rs)) [
    | inl e ↦ absurd (ground (arith, e, y))
    | inr ((q', mid), e) ↦ inr (mid, ground (arith, e, y), ground (arith, e, y))
  ]
]

take_reply-AllCast :
    (ns : List Node) (t c to : ℕ) (rs : List (ℕ × RequestVoteReply)) {r : RequestVoteReply}
    {rest : List (ℕ × RequestVoteReply)}
    → take_reply to rs ≡ some (r, rest)
    → AllCast ns t c rs
    → (r.vote_granted ≡ true → CastAt ns to t c) × AllCast ns t c rest
unfolding take_reply
take_reply-AllCast ns t c to [] h a = absurd (cc h)
take_reply-AllCast ns t c to ((v, q) ∷ rs) {r} {rest} h a = elim (take_reply-cases to v q rs h) [
  | inl (v_to, q_r, rs_rest) ↦ (
    λ ok.
        subst (λ x. CastAt ns x t c) v_to
          (a.0 (ap (λ (x : RequestVoteReply). x.vote_granted) q_r ∙ ok)),
    subst (AllCast ns t c) rs_rest a.1,
  )
  | inr (mid, e, f) ↦
      (let (one, others) = take_reply-AllCast ns t c to rs e a.1 in
        (one, subst (AllCast ns t c) f (a.0, others)))
]

and_right : (a b : Bool) → (a && b) ≡ true → b ≡ true
and_right a b h = ground arith

passed_cases :
    (x to : ℕ) (args : RequestVoteArgs) (ok : Bool) (counted passed : List ℕ)
    → 0 < times x counted + times x (vote_of to args ok passed)
    → (0 < times x counted + times x passed) ⊎ ((ok ≡ true) × (to ≡ x))
passed_cases x to args false counted passed h = inl h
passed_cases x to args true counted passed h = elim (Bool-cases (to == x)) [
  | inl y ↦ inr (refl, (==_iff to x).0 y)
  | inr y ↦ inl (ground (arith, y))
]

module _ (g : Gob) (size : ℕ) where
  -- A request is handled, and its reply is on its way.
  ask_with :
      (k to now : ℕ) (c : Cluster) (e : Election) (left : List ℕ) (n : Node) (rf : Raft)
      (reply : RequestVoteReply)
      → IsSafe g size c
      → get_elem? c.elections k ≡ some e
      → take_out to e.asked ≡ some left
      → get_elem? c.nodes to ≡ some n
      → step g (vote_request now e.args) n.peer ≡ some (rf, granted e.args reply.vote_granted)
      → IsSafe g size (record c {
        nodes =
            set c.nodes to
              (record { peer = rf; cast = note (granted e.args reply.vote_granted) n.cast });
        elections =
            set c.elections k (record e { asked = left; replies = (to, reply) ∷ e.replies });
      })
  ask_with k to now c e left n rf reply s ek out at st =
      let vote = granted e.args reply.vote_granted in
      let ev = vote_request now e.args in
      let ns = set c.nodes to (record { peer = rf; cast = note vote n.cast }) in
      let grows = stepped-Grows g size c.nodes s.peers to n at ev rf vote st in
      let old =
        IsFair-Grows c.nodes ns grows size e (AllFair-at size c.nodes c.elections k s.fair ek) in
      let moved_one = times-take_out to e.asked out in
      let e' = record e { asked = left; replies = (to, reply) ∷ e.replies } in
      let same : (x : ℕ) → uses x e' ≡ uses x e = λ x. omega (arith, moved_one x) in
      let fair' : IsFair size ns e' = record {
        own = old.own;
        once = λ x. omega (arith, same x, old.once x);
        other = omega (arith, same e.args.candidate_id, old.other);
        inside = λ x b. omega (arith, same x, old.inside x b);
        vote = old.vote;
        cast = old.cast;
        said = (
          λ ok. (
            record { peer = rf; cast = note vote n.cast },
            stepped_self g size c.nodes s.peers to n at ev rf vote st,
            subst (λ b. Voted e.args.term e.args.candidate_id (note (granted e.args b) n.cast))
                (sym ok) (inl (refl, refl)),
          ),
          old.said,
        );
      } in
      record {
        peers = stepped-IsPeers g size c.nodes s.peers to n at ev rf vote st;
        fair =
            AllFair-set size ns c.elections k e'
              (AllFair-Grows c.nodes ns grows size c.elections s.fair) fair';
        elected = AllElected-Grows c.nodes ns grows size c.winners s.elected;
      }

  pub ask-IsSafe :
      (k to now : ℕ) (c : Cluster) {d : Cluster}
      → IsSafe g size c
      → ask g k to now c ≡ some d
      → IsSafe g size d
  unfolding ask step
  ask-IsSafe k to now c {d} s h =
      let (e, ek, h1) = >>=-eq-some (get_elem? c.elections k) _ h in
      let (left, out, h2) = >>=-eq-some (take_out to e.asked) _ h1 in
      let (n, at, h3) = >>=-eq-some (get_elem? c.nodes to) _ h2 in
      let ((rf, reply), f, h4) = >>=-eq-some (request_vote_handler g now e.args n.peer) _ h3 in
      subst (IsSafe g size) (some-injective _ d h4)
        (ask_with k to now c e left n rf reply s ek out at (rw (f, step) refl))

  times-vote_of :
      (x to : ℕ) (args : RequestVoteArgs) (ok : Bool) (passed : List ℕ)
      → times x (vote_of to args ok passed) ≤ times x (to ∷ passed)
  times-vote_of x to args ok passed = ground arith

  -- A reply is back, and is dropped or goes on to be counted.
  answer_with :
      (k to : ℕ) (c : Cluster) (e : Election) (reply : RequestVoteReply)
      (rest : List (ℕ × RequestVoteReply)) (n : Node) (rf : Raft) (fresh : Bool)
      → IsSafe g size c
      → get_elem? c.elections k ≡ some e
      → take_reply to e.replies ≡ some (reply, rest)
      → get_elem? c.nodes e.args.candidate_id ≡ some n
      → step g (vote_reply e.args) n.peer ≡ some (rf, none)
      → IsSafe g size (record c {
        nodes = set c.nodes e.args.candidate_id (record n { peer = rf });
        elections = set c.elections k (record e {
          replies = rest;
          passed = vote_of to e.args (fresh && reply.vote_granted) e.passed;
        });
      })
  answer_with k to c e reply rest n rf fresh s ek out at st =
      let i = e.args.candidate_id in
      let ev = vote_reply e.args in
      let ns = set c.nodes i (record n { peer = rf }) in
      let grows = stepped-Grows g size c.nodes s.peers i n at ev rf none st in
      let old =
        IsFair-Grows c.nodes ns grows size e (AllFair-at size c.nodes c.elections k s.fair ek) in
      let ok = fresh && reply.vote_granted in
      let passed' = vote_of to e.args ok e.passed in
      let e' = record e { replies = rest; passed = passed' } in
      let back = take_reply-voters to e.replies out in
      let (one, said) = take_reply-AllCast ns e.args.term i to e.replies out old.said in
      let fewer : (x : ℕ) → uses x e' ≤ uses x e =
        λ x. omega (arith, back x, times-vote_of x to e.args ok e.passed) in
      let fair' : IsFair size ns e' = record {
        own = old.own;
        once = λ x. omega (arith, fewer x, old.once x);
        other = omega (arith, fewer i, old.other);
        inside = λ x b. omega (arith, fewer x, old.inside x b);
        vote = old.vote;
        cast = λ x b. elim (passed_cases x to e.args ok e.counted e.passed b) [
          | inl was ↦ old.cast x was
          | inr (is_ok, to_x) ↦
              subst (λ z. CastAt ns z e.args.term i) to_x
                (one (and_right fresh reply.vote_granted is_ok))
        ];
        said = said;
      } in
      record {
        peers = stepped-IsPeers g size c.nodes s.peers i n at ev rf none st;
        fair =
            AllFair-set size ns c.elections k e'
              (AllFair-Grows c.nodes ns grows size c.elections s.fair) fair';
        elected = AllElected-Grows c.nodes ns grows size c.winners s.elected;
      }

  pub answer-IsSafe :
      (k to : ℕ) (c : Cluster) {d : Cluster}
      → IsSafe g size c
      → answer g k to c ≡ some d
      → IsSafe g size d
  unfolding answer step
  answer-IsSafe k to c {d} s h =
      let (e, ek, h1) = >>=-eq-some (get_elem? c.elections k) _ h in
      let ((reply, rest), out, h2) = >>=-eq-some (take_reply to e.replies) _ h1 in
      let (n, at, h3) = >>=-eq-some (get_elem? c.nodes e.args.candidate_id) _ h2 in
      let (rf, stale) = vote_stale e.args n.peer in
      subst (IsSafe g size) (some-injective _ d h3)
        (answer_with k to c e reply rest n rf (not stale) s ek out at refl)
