-- ===== src/Raft/Logs/Matched.antt =====
-- The invariant of the peers and the messages of src/raft/raft.go on which log matching rests.
use mathlib.Core.Option.{some-injective}
use mathlib.Core.List.{append-nil, append_assoc}
use spring.Common.{
  ℕ, zero, suc, ◌≤◌, ◌≡◌, ◌≢◌, ◌⊎◌, inr, sym, ◌∙◌, subst, some, arith, List, [], ◌∷◌, ◌++◌, drop,
  get_elem?, true, ap,
}
use spring.Raft.Types.{Raft, Gob, Log}
use spring.Raft.Index.{is_leader}
use spring.Raft.Append.{is_nil}
use spring.Raft.Node.{Node, Ballot, restart}
use spring.Raft.Node.OneVote.{Voted, Voted-saved}
use spring.Raft.Cluster.Fair.{IsSafe, CastAt}
use spring.Raft.Cluster.Safety.{elected-once, AllElected-at}
use spring.Raft.Logs.{Traffic, Sent}
use spring.Raft.Logs.Checked.{IsWhole}
use spring.Raft.Logs.Sound.{Led, IsLed, Grown, IsLed-Grown, IsLed-wins}

-- The peer, alive or after a crash, holds the leader's log of its term if it has won that term.
abbrev pub OwnsTerm : List Ballot → Led → ℕ → Raft → Type 0
OwnsTerm ws led i rf = Voted rf.current_term i ws → rf.log ≡ led rf.current_term

pub record IsMember (g : Gob) (ws : List Ballot) (led : Led) (i : ℕ) (n : Node) : Type 0 where
  pub whole : IsWhole n.peer
  pub logged : IsLed ws led n.peer.log
  pub own : OwnsTerm ws led i n.peer
  pub saved : OwnsTerm ws led i (restart g n.peer)
  pub leads : is_leader n.peer.state ≡ true → Voted n.peer.current_term i ws

-- A message holds a part of a leader's log, and is for another peer.
pub record IsPiece (ws : List Ballot) (led : Led) (m : Sent) : Type 0 where
  pub full : List Log
  pub logged : IsLed ws led full
  pub checked :
      (e : Log) × (get_elem? full m.1.prev_log_index ≡ some e) × (e.log_term ≡ m.1.prev_log_term)
  pub rest : (is_nil m.1.entries ≡ true) ⊎ (m.1.entries ≡ drop (suc m.1.prev_log_index) full)
  pub sender : (c : ℕ) × Voted m.1.term c ws × (c ≢ m.0)

abbrev pub AllPieces : List Ballot → Led → List Sent → Type 0
AllPieces ws led [] = Unit
AllPieces ws led (m ∷ ms) = IsPiece ws led m × AllPieces ws led ms

pub record IsMatched (g : Gob) (size : ℕ) (s : Traffic) (led : Led) : Type 0 where
  pub safe : IsSafe g size s.cluster
  pub members :
      (i : ℕ) (n : Node)
      → get_elem? s.cluster.nodes i ≡ some n
      → IsMember g s.cluster.winners led i n
  pub pieces : AllPieces s.cluster.winners led s.sent
  -- A winner has voted for itself.
  pub selves : (t c : ℕ) → Voted t c s.cluster.winners → CastAt s.cluster.nodes c t c

-- What a later network keeps: the elections won, and the logs of their leaders, which only get
-- longer.
pub record Next (g : Gob) (size : ℕ) (s : Traffic) (led : Led) (s' : Traffic) : Type 0 where
  pub led' : Led
  pub matched : IsMatched g size s' led'
  pub won : (t c : ℕ) → Voted t c s.cluster.winners → Voted t c s'.cluster.winners
  pub longer : (t c : ℕ) → Voted t c s.cluster.winners → (es : List Log) × (led' t ≡ led t ++ es)

module _ (g : Gob) (size : ℕ) where
  pub Next-refl : (s : Traffic) (led : Led) → IsMatched g size s led → Next g size s led s
  Next-refl s led m = record {
    led' = led;
    matched = m;
    won = λ t c v. v;
    longer = λ t c v. ([], sym (append-nil (led t)));
  }

  pub Next-trans :
      (a b c : Traffic) (led : Led)
      → (n : Next g size a led b) → Next g size b n.led' c
      → Next g size a led c
  Next-trans a b c led n k = record {
    led' = k.led';
    matched = k.matched;
    won = λ t x v. k.won t x (n.won t x v);
    longer = λ t x v.
        let (es, e) = n.longer t x v in
        let (fs, f) = k.longer t x (n.won t x v) in
        (es ++ fs, f ∙ ap (λ l. l ++ fs) e ∙ append_assoc (led t) es fs);
  }

module _ (ws : List Ballot) (led led' : Led) (grown : Grown ws led led') where
  IsPiece-Grown : (m : Sent) → IsPiece ws led m → IsPiece ws led' m
  IsPiece-Grown m p = record {
    full = p.full;
    logged = IsLed-Grown ws led led' p.full grown p.logged;
    checked = p.checked;
    rest = p.rest;
    sender = p.sender;
  }

  pub AllPieces-Grown : (ms : List Sent) → AllPieces ws led ms → AllPieces ws led' ms
  AllPieces-Grown [] h = tt
  AllPieces-Grown (m ∷ ms) h = (IsPiece-Grown m h.0, AllPieces-Grown ms h.1)

pub AllPieces-wins :
    (ws : List Ballot) (b : Ballot) (led : Led) (ms : List Sent)
    → AllPieces ws led ms
    → AllPieces (b ∷ ws) led ms
AllPieces-wins ws b led [] h = tt
AllPieces-wins ws b led (m ∷ ms) h =
    let p = h.0 in
    (
      record {
        full = p.full;
        logged = IsLed-wins ws (b ∷ ws) led p.full (λ t w. (w.0, inr w.1)) p.logged;
        checked = p.checked;
        rest = p.rest;
        sender = (p.sender.0, inr p.sender.1, p.sender.2);
      },
      AllPieces-wins ws b led ms h.1,
    )

pub AllPieces-append :
    (ws : List Ballot) (led : Led) (xs ys : List Sent)
    → AllPieces ws led xs
    → AllPieces ws led ys
    → AllPieces ws led (xs ++ ys)
AllPieces-append ws led [] ys h k = k
AllPieces-append ws led (x ∷ xs) ys h k = (h.0, AllPieces-append ws led xs ys h.1 k)

pub AllPieces-at :
    (ws : List Ballot) (led : Led) (ms : List Sent) (k : ℕ) {m : Sent}
    → AllPieces ws led ms
    → get_elem? ms k ≡ some m
    → IsPiece ws led m
AllPieces-at ws led [] k h at = absurd (cc at)
AllPieces-at ws led (x ∷ xs) zero h at = subst (IsPiece ws led) (cc at) h.0
AllPieces-at ws led (x ∷ xs) (suc k) h at = AllPieces-at ws led xs k h.1 at

-- A node does not come back to a term that it has won from a lower one.
module _ (g : Gob) (size : ℕ) (s : Traffic) (led : Led) (m : IsMatched g size s led) where
  pub won_before :
      (i t : ℕ) (n : Node)
      → get_elem? s.cluster.nodes i ≡ some n
      → Voted t i s.cluster.winners
      → (t ≤ (restart g n.peer).current_term) × (t ≤ n.peer.current_term)
  won_before i t n at v =
      let (k, f, c) = m.selves t i v in
      let n_k : n ≡ k = some-injective n k (sym at ∙ f) in
      let r = m.safe.peers.right i n at in
      let c' = subst (λ (x : Node). Voted t i x.cast) (sym n_k) c in
      let early = Voted-saved (restart g n.peer) n.cast t i r.saved c' in
      ground (arith, early, r.sound.durable.ballot)

  pub won_once : (t a b : ℕ) → Voted t a s.cluster.winners → Voted t b s.cluster.winners → a ≡ b
  won_once t a b p q =
      elected-once g size s.cluster t a b m.safe
        (AllElected-at size s.cluster.nodes s.cluster.winners t a m.safe.elected p)
        (AllElected-at size s.cluster.nodes s.cluster.winners t b m.safe.elected q)
