-- ===== src/Raft/Cluster/Safety.antt =====
-- Elections in src/raft/raft.go: each term has one winner at most.
use spring.Common.{
  guard_passes, ℕ, zero, suc, ◌+◌, ◌^◌, ◌<◌, List, [], ◌∷◌, some, ◌≡◌, refl, inl, inr, length,
  get_elem?, arith, ap, sym, ◌∙◌, subst, Bool-cases, >>=-eq-some, ◌==◌,
}
use mathlib.Core.Option.{some-injective}
use spring.Raft.Types.{Gob}
use spring.Raft.Persist.{make}
use spring.Raft.Node.{Node, Ballot, crash, newborn}
use spring.Raft.Node.OneVote.{IsRight, Voted, newborn-IsRight}
use spring.Raft.Cluster.{
  Election, Cluster, Move, runs, elects, asks, answers, counts, crashes, run_node, cluster_step,
  cluster_run, without, newborns, founded, is_own,
}
use spring.Raft.Cluster.Quorum.{majorities_meet}
use spring.Raft.Cluster.Fair.{
  AllFair, IsElected, AllElected, IsSafe, AllFair-Grows, AllElected-Grows,
}
use spring.Raft.Cluster.Electing.{elect-IsSafe}
use spring.Raft.Cluster.Answering.{ask-IsSafe, answer-IsSafe}
use spring.Raft.Cluster.Counting.{run_node-IsPeers, count-IsSafe}

without-AllFair :
    (size : ℕ) (ns : List Node) (i : ℕ) (es : List Election)
    → AllFair size ns es
    → AllFair size ns (without i es)
unfolding without
without-AllFair size ns i [] h = tt
without-AllFair size ns i (e ∷ es) h = elim (Bool-cases (e.args.candidate_id == i)) [
  | inl y ↦ rw y (without-AllFair size ns i es h.1)
  | inr y ↦ rw y (h.0, without-AllFair size ns i es h.1)
]

pub AllElected-at :
    (size : ℕ) (ns : List Node) (ws : List Ballot) (t c : ℕ)
    → AllElected size ns ws
    → Voted t c ws
    → IsElected size ns t c
AllElected-at size ns [] t c h v = absurd v
AllElected-at size ns ((u, b) ∷ ws) t c h (inl (p, q)) =
    subst (λ x. IsElected size ns x c) (sym p) (subst (IsElected size ns u) (sym q) h.0)
AllElected-at size ns ((u, b) ∷ ws) t c h (inr v) = AllElected-at size ns ws t c h.1 v

module _ (g : Gob) (size : ℕ) where
  pub cluster_step-IsSafe :
      (m : Move) (c : Cluster) {d : Cluster}
      → size < 2 ^ 32
      → IsSafe g size c
      → cluster_step g m c ≡ some d
      → IsSafe g size d
  unfolding cluster_step
  cluster_step-IsSafe (runs i e) c {d} l s h =
      let (ns, ran, h') = >>=-eq-some (run_node g i e c.nodes) _ (guard_passes (is_own e) _ h).1 in
      let (p, grows) = run_node-IsPeers g size i e c.nodes s.peers ran in
      subst (IsSafe g size) (some-injective _ d h') (record {
        peers = p;
        fair = AllFair-Grows c.nodes ns grows size c.elections s.fair;
        elected = AllElected-Grows c.nodes ns grows size c.winners s.elected;
      })
  cluster_step-IsSafe (elects i now ms) c l s h = elect-IsSafe g size i now ms c s h
  cluster_step-IsSafe (asks k to now) c l s h = ask-IsSafe g size k to now c s h
  cluster_step-IsSafe (answers k to) c l s h = answer-IsSafe g size k to c s h
  cluster_step-IsSafe (counts k to) c l s h = count-IsSafe g size k to c l s h
  cluster_step-IsSafe (crashes i) c {d} l s h =
      let (ns, ran, h') = >>=-eq-some (run_node g i crash c.nodes) _ h in
      let (p, grows) = run_node-IsPeers g size i crash c.nodes s.peers ran in
      subst (IsSafe g size) (some-injective _ d h') (record {
        peers = p;
        fair =
            without-AllFair size ns i c.elections
              (AllFair-Grows c.nodes ns grows size c.elections s.fair);
        elected = AllElected-Grows c.nodes ns grows size c.winners s.elected;
      })

  cluster_run-IsSafe :
      (ms : List Move) (c : Cluster) {d : Cluster}
      → size < 2 ^ 32
      → IsSafe g size c
      → cluster_run g ms c ≡ some d
      → IsSafe g size d
  unfolding cluster_run
  cluster_run-IsSafe [] c {d} l s h = subst (IsSafe g size) (some-injective c d h) s
  cluster_run-IsSafe (m ∷ ms) c l s h =
      let (c', st, h') = >>=-eq-some (cluster_step g m c) _ h in
      cluster_run-IsSafe ms c' l (cluster_step-IsSafe m c l s st) h'

  pub newborns-at :
      (i k j : ℕ) {n : Node}
      → get_elem? (newborns g size i k) j ≡ some n
      → n ≡ newborn g size (i + j)
  newborns-at i zero j h = absurd (cc h)
  newborns-at i (suc k) zero {n} h =
      let e : newborn g size i ≡ n = cc h in sym e ∙ ap (newborn g size) (omega arith)
  newborns-at i (suc k) (suc j) h = newborns-at (i + 1) k j h ∙ ap (newborn g size) (omega arith)

  newborns-length : (i k : ℕ) → length (newborns g size i k) ≡ k
  newborns-length i zero = refl
  newborns-length i (suc k) = ap suc (newborns-length (i + 1) k)

  pub founded-IsSafe : IsSafe g size (founded g size)
  unfolding make
  founded-IsSafe = record {
    peers = record {
      all = newborns-length 0 size;
      right = λ i n h.
          subst (IsRight g) (sym (newborns-at 0 size i h)) (newborn-IsRight g size (0 + i));
      peers = λ i n h. ap (λ (x : Node). x.peer.peers) (newborns-at 0 size i h);
      me = λ i n h. ap (λ (x : Node). x.peer.me) (newborns-at 0 size i h) ∙ omega arith;
    };
    fair = tt;
    elected = tt;
  }

  pub elected-once :
      (c : Cluster) (t a b : ℕ)
      → IsSafe g size c
      → IsElected size c.nodes t a
      → IsElected size c.nodes t b
      → a ≡ b
  elected-once c t a b s p q =
      let (x, in_p, in_q) =
        majorities_meet size p.quorum q.quorum p.once q.once p.inside q.inside p.more q.more in
      let (n, at, va) = p.cast x in_p in
      let (m, at', vb) = q.cast x in_q in
      let n_m : n ≡ m = some-injective n m (sym at ∙ at') in
      (s.peers.right x n at).one t a b va (subst (λ (k : Node). Voted t b k.cast) (sym n_m) vb)

  -- Among fewer than 2^32 peers that start with empty persisters, in any interleaving of their
  -- steps, crashes and restarts, lost messages and messages of leaders with any content included,
  -- no two different peers win elections of the same term.
  pub election_safety :
      (ms : List Move) {c : Cluster}
      → size < 2 ^ 32
      → cluster_run g ms (founded g size) ≡ some c
      → (t a b : ℕ) → Voted t a c.winners
      → Voted t b c.winners
      → a ≡ b
  election_safety ms {c} l h t a b va vb =
      let s = cluster_run-IsSafe ms (founded g size) l founded-IsSafe h in
      elected-once c t a b s (AllElected-at size c.nodes c.winners t a s.elected va)
        (AllElected-at size c.nodes c.winners t b s.elected vb)
