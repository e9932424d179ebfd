-- ===== src/Raft/Cluster/Electing.antt =====
-- The start of an election in src/raft/raft.go keeps the elections fair.
use spring.Common.{
  ℕ, zero, suc, ◌+◌, ◌<◌, not, ◌&&◌, List, Option, none, some, ◌≡◌, refl, inl, ◌==◌, if◌then◌else◌,
  ltb, leb, get_elem?, set, arith, ap, sym, ◌∙◌, subst, >>=-eq-some, lt-length,
}
use mathlib.Core.Option.{some-injective}
use spring.Raft.Types.{Raft, Gob, RequestVoteArgs}
use spring.Raft.Persist.{persist}
use spring.Raft.Vote.{election_tick, elect_launcher, others_from}
use spring.Raft.Node.{Node, election, note, step, own_vote}
use spring.Raft.Node.OneVote.{Voted}
use spring.Raft.Cluster.{Election, Cluster, elect, opened}
use spring.Raft.Cluster.Quorum.{times}
use spring.Raft.Cluster.Fair.{
  CastAt, IsPeers, AllFair, IsSafe, stepped_self, stepped-Grows, stepped-IsPeers, AllFair-Grows,
  AllElected-Grows,
}

pub times-others_from :
    (n i me x : ℕ)
    → times x (others_from n i me) ≡ (if leb i x && ltb x (i + n) && not (x == me) then 1 else 0)
times-others_from zero i me x = ground arith
times-others_from (suc n) i me x = ground (arith, times-others_from n (i + 1) me x)

election_tick-sent :
    (g : Gob) (now ms : ℕ) (rf : Raft) {rf' : Raft} {args : RequestVoteArgs} {to : List ℕ}
    → election_tick g now ms rf ≡ some (rf', some (args, to))
    → (args.candidate_id ≡ rf.me) × (to ≡ others_from rf.peers 0 rf.me)
unfolding election_tick elect_launcher persist
election_tick-sent g now ms rf h = ground arith

module _ (g : Gob) (size : ℕ) where
  opened-AllFair :
      (sent : Option (RequestVoteArgs × List ℕ)) (ns : List Node) (i : ℕ) (es : List Election)
      → i < size
      → AllFair size ns es
      → ((args : RequestVoteArgs) (to : List ℕ)
          → sent ≡ some (args, to)
          → (args.candidate_id ≡ i) × (to ≡ others_from size 0 i) × CastAt ns i args.term i)
      → AllFair size ns (opened sent es)
  opened-AllFair none ns i es l f h = f
  opened-AllFair (some (args, to)) ns i es l f h =
      let (ci, to_eq, own) = h args to refl in
      let at_most : (x : ℕ)
          → times x to ≡ (if leb 0 x && ltb x (0 + size) && not (x == i) then 1 else 0) =
        λ x. ap (times x) to_eq ∙ times-others_from size 0 i x in
      (
        record {
          own = subst (λ x. CastAt ns x args.term x) (sym ci) own;
          once = λ x. ground (arith, at_most x);
          other = ground (arith, at_most args.candidate_id, ci);
          inside = λ x b. ground (arith, at_most x, b);
          vote = refl;
          cast = λ x b. absurd (omega (arith, b));
          said = tt;
        },
        f,
      )

  -- What an election is of, with the peer after its start.
  elect_sent :
      (i now ms : ℕ) (ns ms' : List Node) (n : Node) (rf : Raft)
      (sent : Option (RequestVoteArgs × List ℕ))
      → IsPeers g size ns
      → get_elem? ns i ≡ some n
      → election_tick g now ms n.peer ≡ some (rf, sent)
      → get_elem? ms' i ≡ some (record { peer = rf; cast = note (own_vote sent) n.cast })
      → (args : RequestVoteArgs) (to : List ℕ) → sent ≡ some (args, to)
      → (args.candidate_id ≡ i) × (to ≡ others_from size 0 i) × CastAt ms' i args.term i
  elect_sent i now ms ns ms' n rf sent p at f self args to e =
      let (ci, to_eq) = election_tick-sent g now ms n.peer (f ∙ ap (λ x. some (rf, x)) e) in
      let me = p.me i n at in
      (
        ci ∙ me,
        to_eq ∙ (rw (p.peers i n at, me) refl),
        (
          record { peer = rf; cast = note (own_vote sent) n.cast },
          self,
          subst (λ o. Voted args.term i (note (own_vote o) n.cast)) (sym e)
              (inl (refl, sym (ci ∙ me))),
        ),
      )

  elect_with :
      (i now ms : ℕ) (c : Cluster) (n : Node) (rf : Raft) (sent : Option (RequestVoteArgs × List ℕ))
      → IsSafe g size c
      → get_elem? c.nodes i ≡ some n
      → election_tick g now ms n.peer ≡ some (rf, sent)
      → step g (election now ms) n.peer ≡ some (rf, own_vote sent)
      → IsSafe g size (record c {
        nodes = set c.nodes i (record { peer = rf; cast = note (own_vote sent) n.cast });
        elections = opened sent c.elections;
      })
  elect_with i now ms c n rf sent s at f st =
      let e = election now ms in
      let vote = own_vote sent in
      let ns = set c.nodes i (record { peer = rf; cast = note vote n.cast }) in
      let grows = stepped-Grows g size c.nodes s.peers i n at e rf vote st in
      record {
        peers = stepped-IsPeers g size c.nodes s.peers i n at e rf vote st;
        fair =
            opened-AllFair sent ns i c.elections
              (omega (arith, lt-length c.nodes i at, s.peers.all))
              (AllFair-Grows c.nodes ns grows size c.elections s.fair)
              (elect_sent i now ms c.nodes ns n rf sent s.peers at f
                (stepped_self g size c.nodes s.peers i n at e rf vote st));
        elected = AllElected-Grows c.nodes ns grows size c.winners s.elected;
      }

  pub elect-IsSafe :
      (i now ms : ℕ) (c : Cluster) {d : Cluster}
      → IsSafe g size c
      → elect g i now ms c ≡ some d
      → IsSafe g size d
  unfolding elect step
  elect-IsSafe i now ms c {d} s h =
      let (n, at, h1) = >>=-eq-some (get_elem? c.nodes i) _ h in
      let ((rf, sent), f, h2) = >>=-eq-some (election_tick g now ms n.peer) _ h1 in
      subst (IsSafe g size) (some-injective _ d h2)
        (elect_with i now ms c n rf sent s at f (rw (f, step) refl))
