-- ===== src/Raft/Cluster/Fair.antt =====
-- What holds of the peers, the elections and the elections won in src/raft/raft.go, and that it
-- stays when the peers only gain votes.
use spring.Common.{
  ℕ, zero, suc, ◌+◌, ◌%◌, ◌^◌, ◌≤◌, ◌<◌, true, false, List, [], ◌∷◌, Option, none, some, ◌≡◌, ◌≢◌,
  refl, ◌⊎◌, inl, inr, ◌==◌, ==_iff, length, get_elem?, set, arith, ap, sym, ◌∙◌, subst, Bool-cases,
  get_elem?-set_self, get_elem?-set_ne, lt-length, length-set,
}
use mathlib.Core.Option.{some-injective}
use spring.Raft.Types.{Raft, Gob, RequestVoteReply}
use spring.Raft.Node.{Node, Ballot, Event, note, step}
use spring.Raft.Node.OneVote.{IsRight, Voted, note-IsRight}
use spring.Raft.Cluster.{Election, Cluster}
use spring.Raft.Cluster.Quorum.{times}
use spring.Raft.Cluster.Keeps.{step-Same}

-- Peer `x` has voted for `c` in term `t`.
abbrev pub CastAt : List Node → ℕ → ℕ → ℕ → Type 0
CastAt ns x t c = (n : Node) × (get_elem? ns x ≡ some n) × Voted t c n.cast

abbrev pub Grows : List Node → List Node → Type 0
Grows ns ms = (x t c : ℕ) → CastAt ns x t c → CastAt ms x t c

pub record IsPeers (g : Gob) (size : ℕ) (ns : List Node) : Type 0 where
  pub all : length ns ≡ size
  pub right : (i : ℕ) (n : Node) → get_elem? ns i ≡ some n → IsRight g n
  pub peers : (i : ℕ) (n : Node) → get_elem? ns i ≡ some n → n.peer.peers ≡ size
  pub me : (i : ℕ) (n : Node) → get_elem? ns i ≡ some n → n.peer.me ≡ i

abbrev pub voters : List (ℕ × RequestVoteReply) → List ℕ
voters [] = []
voters ((v, r) ∷ rs) = v ∷ voters rs

-- A voter that grants its vote has cast it.
abbrev pub AllCast : List Node → ℕ → ℕ → List (ℕ × RequestVoteReply) → Type 0
AllCast ns t c [] = Unit
AllCast ns t c ((v, r) ∷ rs) = (r.vote_granted ≡ true → CastAt ns v t c) × AllCast ns t c rs

-- How often a peer stands in an election that has not dropped it.
abbrev pub uses : ℕ → Election → ℕ
uses x e = times x e.counted + times x e.passed + times x (voters e.replies) + times x e.asked

pub record IsFair (size : ℕ) (ns : List Node) (e : Election) : Type 0 where
  pub own : CastAt ns e.args.candidate_id e.args.term e.args.candidate_id
  pub once : (x : ℕ) → uses x e ≤ 1
  pub other : uses e.args.candidate_id e ≡ 0
  pub inside : (x : ℕ) → size ≤ x → uses x e ≡ 0
  pub vote : e.vote ≡ (1 + length e.counted) % 2 ^ 32
  pub cast :
      (x : ℕ)
      → 0 < times x e.counted + times x e.passed
      → CastAt ns x e.args.term e.args.candidate_id
  pub said : AllCast ns e.args.term e.args.candidate_id e.replies

abbrev pub AllFair : ℕ → List Node → List Election → Type 0
AllFair size ns [] = Unit
AllFair size ns (e ∷ es) = IsFair size ns e × AllFair size ns es

-- More than half of the peers have voted for `c` in term `t`.
pub record IsElected (size : ℕ) (ns : List Node) (t c : ℕ) : Type 0 where
  pub quorum : List ℕ
  pub once : (x : ℕ) → times x quorum ≤ 1
  pub inside : (x : ℕ) → size ≤ x → times x quorum ≡ 0
  pub more : size < length quorum + length quorum
  pub cast : (x : ℕ) → 0 < times x quorum → CastAt ns x t c

abbrev pub AllElected : ℕ → List Node → List Ballot → Type 0
AllElected size ns [] = Unit
AllElected size ns ((t, c) ∷ ws) = IsElected size ns t c × AllElected size ns ws

pub record IsSafe (g : Gob) (size : ℕ) (c : Cluster) : Type 0 where
  pub peers : IsPeers g size c.nodes
  pub fair : AllFair size c.nodes c.elections
  pub elected : AllElected size c.nodes c.winners

module _ (ns ms : List Node) (grows : Grows ns ms) where
  pub AllCast-Grows :
      (t c : ℕ) (rs : List (ℕ × RequestVoteReply)) → AllCast ns t c rs → AllCast ms t c rs
  AllCast-Grows t c [] h = tt
  AllCast-Grows t c ((v, r) ∷ rs) h = (λ e. grows v t c (h.0 e), AllCast-Grows t c rs h.1)

  pub IsFair-Grows : (size : ℕ) (e : Election) → IsFair size ns e → IsFair size ms e
  IsFair-Grows size e f = record {
    own = grows e.args.candidate_id e.args.term e.args.candidate_id f.own;
    once = f.once;
    other = f.other;
    inside = f.inside;
    vote = f.vote;
    cast = λ x h. grows x e.args.term e.args.candidate_id (f.cast x h);
    said = AllCast-Grows e.args.term e.args.candidate_id e.replies f.said;
  }

  pub AllFair-Grows : (size : ℕ) (es : List Election) → AllFair size ns es → AllFair size ms es
  AllFair-Grows size [] h = tt
  AllFair-Grows size (e ∷ es) h = (IsFair-Grows size e h.0, AllFair-Grows size es h.1)

  pub AllElected-Grows :
      (size : ℕ) (ws : List Ballot) → AllElected size ns ws → AllElected size ms ws
  AllElected-Grows size [] h = tt
  AllElected-Grows size ((t, c) ∷ ws) (h, hs) = (
    record {
      quorum = h.quorum;
      once = h.once;
      inside = h.inside;
      more = h.more;
      cast = λ x p. grows x t c (h.cast x p);
    },
    AllElected-Grows size ws hs,
  )

-- What a list of peers holds after one has been replaced.
pub set-cases {ℓ} :
    {A : Type ℓ} (xs : List A) (i j : ℕ) (v : A) {w : A}
    → get_elem? (set xs i v) j ≡ some w
    → ((i ≡ j) × (v ≡ w)) ⊎ (get_elem? xs j ≡ some w)
set-cases [] i j v h = inr h
set-cases (x ∷ xs) zero zero v h = inl (refl, cc h)
set-cases (x ∷ xs) zero (suc j) v h = inr h
set-cases (x ∷ xs) (suc i) zero v h = inr h
set-cases (x ∷ xs) (suc i) (suc j) v h = elim (set-cases xs i j v h) [
  | inl (e, f) ↦ inl (ap suc e, f)
  | inr f ↦ inr f
]

pub AllFair-at :
    (size : ℕ) (ns : List Node) (es : List Election) (k : ℕ) {e : Election}
    → AllFair size ns es
    → get_elem? es k ≡ some e
    → IsFair size ns e
AllFair-at size ns [] k h f = absurd (cc f)
AllFair-at size ns (e ∷ es) zero h f = subst (IsFair size ns) (cc f) h.0
AllFair-at size ns (e ∷ es) (suc k) h f = AllFair-at size ns es k h.1 f

pub AllFair-set :
    (size : ℕ) (ns : List Node) (es : List Election) (k : ℕ) (e : Election)
    → AllFair size ns es
    → IsFair size ns e
    → AllFair size ns (set es k e)
AllFair-set size ns [] k e h f = tt
AllFair-set size ns (x ∷ xs) zero e h f = (f, h.1)
AllFair-set size ns (x ∷ xs) (suc k) e h f = (h.0, AllFair-set size ns xs k e h.1 f)

Voted-note :
    (vote : Option Ballot) (l : List Ballot) (t c : ℕ) → Voted t c l → Voted t c (note vote l)
Voted-note none l t c v = v
Voted-note (some b) l t c v = inr v

pub ==-ne : (a b : ℕ) → (a == b) ≡ false → a ≢ b
==-ne a b h e = ground (arith, e)

-- One peer takes a step.
module _ (g : Gob) (size : ℕ) (ns : List Node) (p : IsPeers g size ns) (i : ℕ) (n : Node)
    (at : get_elem? ns i ≡ some n) (e : Event) (rf : Raft) (vote : Option Ballot)
    (h : step g e n.peer ≡ some (rf, vote)) where
  abbrev pub moved : Node
  moved = record { peer = rf; cast = note vote n.cast }

  abbrev pub stepped : List Node
  stepped = set ns i moved

  pub stepped_self : get_elem? stepped i ≡ some moved
  stepped_self = get_elem?-set_self ns i moved (lt-length ns i at)

  pub stepped-Grows : Grows ns stepped
  stepped-Grows x t c (m, f, v) = elim (Bool-cases (i == x)) [
    | inl e ↦
        (let i_x = (==_iff i x).0 e in
          let n_m : n ≡ m = some-injective n m (sym at ∙ ap (get_elem? ns) i_x ∙ f) in
          (
            moved,
            ap (get_elem? stepped) (sym i_x) ∙ stepped_self,
            Voted-note vote n.cast t c (subst (λ (k : Node). Voted t c k.cast) (sym n_m) v),
          ))
    | inr e ↦ (m, get_elem?-set_ne ns i x moved (==-ne i x e) ∙ f, v)
  ]

  pub stepped-IsPeers : IsPeers g size stepped
  stepped-IsPeers = record {
    all = length-set ns i moved ∙ p.all;
    right = λ j m f. elim (set-cases ns i j moved f) [
      | inl (_, q) ↦ subst (IsRight g) q (note-IsRight g e n rf vote (p.right i n at) h)
      | inr f' ↦ p.right j m f'
    ];
    peers = λ j m f. elim (set-cases ns i j moved f) [
      | inl (_, q) ↦
          subst (λ (k : Node). k.peer.peers ≡ size) q ((step-Same g e n.peer h).0 ∙ p.peers i n at)
      | inr f' ↦ p.peers j m f'
    ];
    me = λ j m f. elim (set-cases ns i j moved f) [
      | inl (i_j, q) ↦
          subst (λ (k : Node). k.peer.me ≡ j) q ((step-Same g e n.peer h).1 ∙ p.me i n at ∙ i_j)
      | inr f' ↦ p.me j m f'
    ];
  }
