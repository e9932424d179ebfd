-- ===== src/Raft/Node/OneVote.antt =====
-- Over the whole life of a peer of src/raft/raft.go it gives at most one vote in a term.
use spring.Common.{
  ℕ, ◌<◌, ◌≡◌, ◌⊎◌, inl, inr, sym, Option, none, some, List, [], ◌∷◌, arith, Option-cases, subst,
}
use mathlib.Core.Option.{some-injective}
use spring.Raft.Types.{Raft, Gob}
use spring.Raft.Persist.{make}
use spring.Raft.Node.{Event, step, run, restart, note, Node, newborn, Ballot}
use spring.Raft.Node.Durable.{Later}
use spring.Raft.Node.Sound.{IsSound, step-Advances, step-saves}

-- The list of votes holds a vote for `c` in term `t`.
abbrev pub Voted : ℕ → ℕ → List Ballot → Type 0
Voted t c [] = ⊥
Voted t c ((u, b) ∷ l) = ((t ≡ u) × (c ≡ b)) ⊎ Voted t c l

-- Every vote in the list is at most the ballot that is saved.
abbrev pub AllSaved : Raft → List Ballot → Type 0
AllSaved r [] = Unit
AllSaved r ((u, b) ∷ l) =
    ((u < r.current_term) ⊎ ((u ≡ r.current_term) × (r.voted_for ≡ some b))) × AllSaved r l

-- No two votes of the list are for one term and different candidates.
abbrev pub VotesOnce : List Ballot → Type 0
VotesOnce l = (t b c : ℕ) → Voted t b l → Voted t c l → b ≡ c

module _ (r : Raft) where
  pub Voted-saved :
      (l : List Ballot) (t c : ℕ)
      → AllSaved r l
      → Voted t c l
      → (t < r.current_term) ⊎ ((t ≡ r.current_term) × (r.voted_for ≡ some c))
  Voted-saved [] t c s h = absurd h
  Voted-saved ((u, b) ∷ l) t c s (inl e) = ground arith
  Voted-saved ((u, b) ∷ l) t c s (inr h) = Voted-saved l t c s.1 h

AllSaved-Later : (a b : Raft) (l : List Ballot) → Later a b → AllSaved a l → AllSaved b l
AllSaved-Later a b [] p s = tt
AllSaved-Later a b ((u, c) ∷ l) p s = (ground arith, AllSaved-Later a b l p s.1)

-- A vote that is saved, in front of votes that are at most it.
VotesOnce-cons :
    (r : Raft) (t c : ℕ) (l : List Ballot)
    → AllSaved r l
    → VotesOnce l
    → (r.current_term ≡ t) × (r.voted_for ≡ some c)
    → VotesOnce ((t, c) ∷ l)
VotesOnce-cons r t c l s one e u a b (inl p) (inl q) = ground arith
VotesOnce-cons r t c l s one e u a b (inl p) (inr q) = ground (arith, Voted-saved r l u b s q)
VotesOnce-cons r t c l s one e u a b (inr p) (inl q) = ground (arith, Voted-saved r l u a s p)
VotesOnce-cons r t c l s one e u a b (inr p) (inr q) = one u a b p q

-- What holds of a node in any run.
pub record IsRight (g : Gob) (n : Node) : Type 0 where
  pub sound : IsSound g n.peer
  pub saved : AllSaved (restart g n.peer) n.cast
  pub one : VotesOnce n.cast

module _ (g : Gob) where
  pub note-IsRight :
      (e : Event) (n : Node) (rf : Raft) (vote : Option Ballot)
      → IsRight g n
      → step g e n.peer ≡ some (rf, vote)
      → IsRight g (record { peer = rf; cast = note vote n.cast })
  note-IsRight e n rf none r h =
      let adv = step-Advances g e n.peer r.sound h in
      record {
        sound = adv.sound;
        saved = AllSaved-Later (restart g n.peer) (restart g rf) n.cast adv.saved r.saved;
        one = r.one;
      }
  note-IsRight e n rf (some (t, c)) r h =
      let adv = step-Advances g e n.peer r.sound h in
      let kept = AllSaved-Later (restart g n.peer) (restart g rf) n.cast adv.saved r.saved in
      let now_saved = step-saves g e n.peer h in
      record {
        sound = adv.sound;
        saved = (inr (sym now_saved.0, now_saved.1), kept);
        one = VotesOnce-cons (restart g rf) t c n.cast kept r.one now_saved;
      }

  pub run-IsRight :
      (es : List Event) (n : Node) {m : Node} → IsRight g n → run g es n ≡ some m → IsRight g m
  unfolding run
  run-IsRight [] n {m} r h = subst (IsRight g) (some-injective n m h) r
  run-IsRight (e ∷ es) n r h = elim (Option-cases (step g e n.peer)) [
    | inl panic ↦ absurd (ground arith)
    | inr ((rf, vote), f) ↦
        run-IsRight es (record { peer = rf; cast = note vote n.cast })
          (note-IsRight e n rf vote r f) (ground arith)
  ]

  pub newborn-IsRight : (peers me : ℕ) → IsRight g (newborn g peers me)
  unfolding make
  newborn-IsRight peers me = record {
    sound = record { valid = ground arith; durable = ground arith };
    saved = tt;
    one = λ t b c p q. absurd p;
  }
