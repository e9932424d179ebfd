-- ===== src/Raft/Logs/Stepping.antt =====
-- A step of one peer of src/raft/raft.go in the network, and what it keeps.
use spring.Common.{
  ℕ, ◌≤◌, ◌≡◌, inl, inr, refl, Option, none, some, List, [], ◌++◌, true, ◌==◌, ==_iff, ap, sym, ◌∙◌,
  subst, Bool-cases, get_elem?, set, get_elem?-set_ne, >>=-eq-some,
}
use mathlib.Core.Option.{some-injective}
use spring.Raft.Types.{Raft, Gob, Command, AppendEntriesArgs}
use spring.Raft.Index.{is_leader}
use spring.Raft.Persist.{persist}
use spring.Raft.Append.{heartbeat_handler}
use spring.Raft.Leader.{start, appended}
use spring.Raft.Node.{Node, Ballot, Event, entries, command, crash, note, step, restart}
use spring.Raft.Node.Durable.{IsDurable}
use spring.Raft.Node.OneVote.{Voted}
use spring.Raft.Cluster.{Cluster}
use spring.Raft.Cluster.Keeps.{step-Same}
use spring.Raft.Cluster.Fair.{IsSafe, Grows, stepped_self, stepped-Grows, ==-ne}
use spring.Raft.Logs.{Traffic, Sent}
use spring.Raft.Logs.Quiet.{is_quiet, IsQuiet, IsQuiet-refl, step-IsQuiet}
use spring.Raft.Logs.Arrival.{IsArrival, heartbeat-IsArrival}
use spring.Raft.Logs.Sound.{Led}
use spring.Raft.Logs.Matched.{
  IsMember, IsMatched, Next, IsPiece, AllPieces, AllPieces-Grown, AllPieces-append, won_before,
  won_once,
}
use spring.Raft.Logs.Steps.{quiet-IsMember, arrival-IsMember}
use spring.Raft.Logs.Entries.{
  Extended, Extended-Grown, Extended-longer, IsMember-Extended, appended-IsMember, start-leads,
  start-refuses, crash-IsMember,
}

-- One peer takes one step, and nobody wins.
pub record IsStepped (g : Gob) (e : Event) (c d : Cluster) : Type 0 where
  pub i : ℕ
  pub n : Node
  pub at : get_elem? c.nodes i ≡ some n
  pub rf : Raft
  pub vote : Option Ballot
  pub taken : step g e n.peer ≡ some (rf, vote)
  pub nodes : d.nodes ≡ set c.nodes i (record { peer = rf; cast = note vote n.cast })
  pub winners : d.winners ≡ c.winners

module _ (g : Gob) (size : ℕ) (s : Traffic) (led : Led) (m : IsMatched g size s led) (d : Cluster)
    (safe : IsSafe g size d) (e : Event) (st : IsStepped g e s.cluster d) where
  abbrev after : Node
  after = record { peer = st.rf; cast = note st.vote st.n.cast }

  there : get_elem? d.nodes st.i ≡ some after
  there =
      ap (λ ns. get_elem? ns st.i) st.nodes
      ∙ stepped_self g size s.cluster.nodes m.safe.peers st.i st.n st.at e st.rf st.vote st.taken

  grows : Grows s.cluster.nodes d.nodes
  grows =
      subst (Grows s.cluster.nodes) (sym st.nodes)
        (stepped-Grows g size s.cluster.nodes m.safe.peers st.i st.n st.at e st.rf st.vote st.taken)

  IsDurable-before : IsDurable g st.n.peer
  IsDurable-before = (m.safe.peers.right st.i st.n st.at).sound.durable

  IsDurable-after : IsDurable g st.rf
  IsDurable-after = (safe.peers.right st.i after there).sound.durable

  member : IsMember g s.cluster.winners led st.i st.n
  member = m.members st.i st.n st.at

  -- The step keeps what holds of the network where the peer that takes it stays a member.
  pub stepped-IsMatched :
      (led' : Led) (sent : List Sent)
      → Extended s.cluster.winners st.i led led'
      → IsMember g s.cluster.winners led' st.i after
      → AllPieces s.cluster.winners led' sent
      → Next g size s led (record { cluster = d; sent = sent ++ s.sent })
  stepped-IsMatched led' sent longer mine pieces =
      let ws = s.cluster.winners in
      let back : ws ≡ d.winners = sym st.winners in
      record {
        led' = led';
        won = λ t c v. subst (Voted t c) back v;
        longer = λ t c v. Extended-longer ws st.i led led' longer t;
        matched = record {
          safe = safe;
          members = λ j k at.
              subst (λ w. IsMember g w led' j k) back
                (elim (Bool-cases (st.i == j)) [
                  | inl y ↦
                      (let i_j = (==_iff st.i j).0 y in
                        let same : after ≡ k =
                          some-injective after k (sym there ∙ ap (get_elem? d.nodes) i_j ∙ at) in
                        subst (λ x. IsMember g ws led' x k) i_j
                          (subst (IsMember g ws led' st.i) same mine))
                  | inr y ↦
                      (let ne = ==-ne st.i j y in
                        let at' : get_elem? s.cluster.nodes j ≡ some k =
                          sym (get_elem?-set_ne s.cluster.nodes st.i j after ne)
                          ∙ ap (λ ns. get_elem? ns j) (sym st.nodes)
                          ∙ at in
                        IsMember-Extended ws st.i led led' longer g j k (won_once g size s led m)
                          (λ e. ne (sym e)) (m.members j k at'))
                ]);
          pieces =
              subst (λ w. AllPieces w led' (sent ++ s.sent)) back
                (AllPieces-append ws led' sent s.sent pieces (
                  AllPieces-Grown ws led led' (Extended-Grown ws st.i led led' longer) s.sent
                    m.pieces));
          selves = λ t c v. grows c t c (m.selves t c (subst (Voted t c) st.winners v));
        };
      }

  before : (t : ℕ) → Voted t st.i s.cluster.winners → t ≤ st.n.peer.current_term
  before t v = (won_before g size s led m st.i t st.n st.at v).1

  pub quiet-IsMatched :
      (sent : List Sent)
      → is_quiet e ≡ true
      → AllPieces s.cluster.winners led sent
      → Next g size s led (record { cluster = d; sent = sent ++ s.sent })
  quiet-IsMatched sent q pieces =
      stepped-IsMatched led sent (λ t. inl refl)
        (quiet-IsMember g s.cluster.winners led st.i st.n after member before IsDurable-before
          IsDurable-after (step-Same g e st.n.peer st.taken)
          (step-IsQuiet g e st.n.peer q st.taken))
        pieces

  -- The step changes nothing.
  pub idle-IsMatched : st.n.peer ≡ st.rf → Next g size s led (record { cluster = d; sent = s.sent })
  idle-IsMatched same =
      stepped-IsMatched led [] (λ t. inl refl)
        (quiet-IsMember g s.cluster.winners led st.i st.n after member before IsDurable-before
          IsDurable-after (step-Same g e st.n.peer st.taken)
          (subst (IsQuiet g st.n.peer) same (IsQuiet-refl g st.n.peer)))
        tt

  pub crash-IsMatched : e ≡ crash → Next g size s led (record { cluster = d; sent = s.sent })
  unfolding step
  crash-IsMatched q =
      let back : (restart g st.n.peer, none) ≡ (st.rf, st.vote) =
        some-injective _ _ (ap (λ x. step g x st.n.peer) (sym q) ∙ st.taken) in
      let mine =
        crash-IsMember g s.cluster.winners led st.i st.n member (note st.vote st.n.cast)
          IsDurable-before in
      stepped-IsMatched led [] (λ t. inl refl)
        (subst
          (λ (x : Raft).
            IsMember g s.cluster.winners led st.i
              (record { peer = x; cast = note st.vote st.n.cast }))
          (ap (λ (x : Raft × Option Ballot). x.0) back) mine)
        tt

  pub arrival-IsMatched :
      (now : ℕ) (args : AppendEntriesArgs)
      → e ≡ entries now args
      → IsPiece s.cluster.winners led (st.i, args)
      → Next g size s led (record { cluster = d; sent = s.sent })
  unfolding step
  arrival-IsMatched now args q piece =
      let taken : step g (entries now args) st.n.peer ≡ some (st.rf, st.vote) =
        ap (λ x. step g x st.n.peer) (sym q) ∙ st.taken in
      let (out, h, h') = >>=-eq-some (heartbeat_handler g now args st.n.peer) _ taken in
      let same : out.peer ≡ st.rf =
        ap (λ (x : Raft × Option Ballot). x.0) (some-injective _ _ h') in
      let kept = step-Same g e st.n.peer st.taken in
      let kept' : (out.peer.me ≡ st.n.peer.me) × (out.peer.peers ≡ st.n.peer.peers) =
        (ap (λ (x : Raft). x.me) same ∙ kept.1, ap (λ (x : Raft). x.peers) same ∙ kept.0) in
      let arrived = heartbeat-IsArrival g now args st.n.peer member.whole h kept' in
      stepped-IsMatched led [] (λ t. inl refl)
        (arrival-IsMember g s.cluster.winners led st.i st.n after (st.i, args) member piece refl
          (won_once g size s led m) before IsDurable-before IsDurable-after kept
          (subst (IsArrival g args st.n.peer) same arrived))
        tt

  pub command-IsMatched :
      (x : Command) → e ≡ command x → Next g size s led (record { cluster = d; sent = s.sent })
  unfolding step
  command-IsMatched x q =
      let now_at : Raft × Option Ballot = ((start g x st.n.peer).0, none) in
      let taken : now_at ≡ (st.rf, st.vote) =
        some-injective now_at (st.rf, st.vote) (ap (λ y. step g y st.n.peer) (sym q) ∙ st.taken) in
      let done : (start g x st.n.peer).0 ≡ st.rf = ap (λ (y : Raft × Option Ballot). y.0) taken in
      elim (Bool-cases (is_leader st.n.peer.state)) [
        | inl l ↦
            (let same : persist g (appended x st.n.peer) ≡ st.rf =
                sym (start-leads g x st.n.peer l) ∙ done in
              let (led', longer, mine) =
                appended-IsMember g s.cluster.winners led st.i st.n member x
                  (note st.vote st.n.cast) l (subst (IsDurable g) (sym same) IsDurable-after) in
              stepped-IsMatched led' [] longer
                (subst
                  (λ (y : Raft).
                    IsMember g s.cluster.winners led' st.i
                      (record { peer = y; cast = note st.vote st.n.cast }))
                  same mine)
                tt)
        | inr l ↦ idle-IsMatched (sym (start-refuses g x st.n.peer l) ∙ done)
      ]
