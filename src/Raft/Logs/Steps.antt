-- ===== src/Raft/Logs/Steps.antt =====
-- The steps of one peer of src/raft/raft.go keep it a member: quiet steps, entries of a leader, new
-- entries and crashes.
use spring.Common.{
  ℕ, suc, ◌≤◌, ◌≡◌, ◌⊎◌, inl, inr, sym, ap, ◌∙◌, subst, Option, none, some, arith, List, [], ◌∷◌,
  ◌++◌, take,
}
use spring.Raft.Types.{Raft, Gob, Log}
use spring.Raft.Valid.{first_term}
use spring.Raft.Node.{Node, Ballot, restart}
use spring.Raft.Node.Durable.{IsDurable}
use spring.Raft.Node.OneVote.{Voted}
use spring.Raft.Logs.{Sent}
use spring.Raft.Logs.Quiet.{IsQuiet}
use spring.Raft.Logs.Arrival.{IsArrival}
use spring.Raft.Logs.Checked.{IsWhole, LogAfter}
use spring.Raft.Logs.Sound.{Led, IsLed, IsLed-take, IsLed-joined}
use spring.Raft.Logs.Matched.{IsMember, IsPiece, OwnsTerm}

module _ (g : Gob) (ws : List Ballot) (led : Led) (i : ℕ) where
  -- What a crash would bring back is owned too: the same as before, or what the peer is.
  saved-OwnsTerm :
      (a b : Raft)
      → IsDurable g a
      → IsDurable g b
      → OwnsTerm ws led i (restart g a)
      → OwnsTerm ws led i b
      → (b.peers ≡ a.peers) × (b.me ≡ a.me)
      → (b.persister ≡ a.persister) ⊎ ((restart g b).current_term ≡ b.current_term)
      → OwnsTerm ws led i (restart g b)
  saved-OwnsTerm a b da db sa ob (peers, me) (inl p) v =
      let again : restart g b ≡ restart g a = cc (p, peers, me) in
      subst (OwnsTerm ws led i) (sym again) sa v
  saved-OwnsTerm a b da db sa ob same (inr t) v =
      let v' = subst (λ (x : ℕ). Voted x i ws) t v in db.log ∙ ob v' ∙ ap led (sym t)

  -- The term of a peer that has won it is the one before the step.
  same_term :
      (a b : Raft)
      → ((t : ℕ) → Voted t i ws → t ≤ a.current_term)
      → a.current_term ≤ b.current_term
      → Voted b.current_term i ws
      → b.current_term ≡ a.current_term
  same_term a b before later v = omega (arith, before b.current_term v, later)

  IsWhole-same :
      (a b : Raft)
      → IsWhole a
      → b.log ≡ a.log
      → b.last_included_index ≡ a.last_included_index
      → b.last_included_term ≡ a.last_included_term
      → IsWhole b
  IsWhole-same a b w l x y = record {
    index = x ∙ w.index;
    term = y ∙ w.term;
    head = ap first_term l ∙ w.head;
  }

  pub quiet-IsMember :
      (n n' : Node)
      → IsMember g ws led i n
      → ((t : ℕ) → Voted t i ws → t ≤ n.peer.current_term)
      → IsDurable g n.peer
      → IsDurable g n'.peer
      → (n'.peer.peers ≡ n.peer.peers) × (n'.peer.me ≡ n.peer.me)
      → IsQuiet g n.peer n'.peer
      → IsMember g ws led i n'
  quiet-IsMember n n' m before d d' same q =
      let a = n.peer in
      let b = n'.peer in
      let own : OwnsTerm ws led i b = λ v.
        let e = same_term a b before q.later v in
        q.log ∙ m.own (subst (λ (t : ℕ). Voted t i ws) e v) ∙ ap led (sym e) in
      record {
        whole = IsWhole-same a b m.whole q.log q.index q.term;
        logged = subst (IsLed ws led) (sym q.log) m.logged;
        own = own;
        saved = saved-OwnsTerm a b d d' m.saved own same q.saves;
        leads =
            λ l. let (l', e) = q.leads l in subst (λ (t : ℕ). Voted t i ws) (sym e) (m.leads l');
      }

  -- Entries of a leader make a log a leader's.
  LogAfter-IsLed :
      (p : Sent) (old new : List Log)
      → IsPiece ws led p
      → IsLed ws led old
      → LogAfter p.1 old new
      → IsLed ws led new
  LogAfter-IsLed p old new piece s (inl same) = subst (IsLed ws led) (sym same) s
  LogAfter-IsLed p old new piece s (inr (inl (k, pos_k, cut))) =
      subst (IsLed ws led) (sym cut) (IsLed-take ws led k old pos_k s)
  LogAfter-IsLed p old new piece s (inr (inr (e, at, t, more, longer))) = elim piece.rest [
    | inl nothing ↦ absurd (cc (nothing, more))
    | inr rest ↦
        (let (f, at', t') = piece.checked in
          let whole =
            IsLed-joined ws led p.1.prev_log_index old piece.full e f s piece.logged at at'
              (sym t ∙ sym t') in
          let joined : new ≡ piece.full =
            longer ∙ ap (λ l. take (suc p.1.prev_log_index) old ++ l) rest ∙ whole in
          subst (IsLed ws led) (sym joined) piece.logged)
  ]

  pub head-first_term : (l : List Log) → IsLed ws led l → first_term l ≡ some 0
  head-first_term [] s = absurd (cc s.head)
  head-first_term (x ∷ l) s =
      ap (λ (o : Option Log). elim o [ none ↦ none | some e ↦ some e.log_term ]) s.head

  pub arrival-IsMember :
      (n n' : Node) (p : Sent)
      → IsMember g ws led i n
      → IsPiece ws led p
      → p.0 ≡ i
      → ((t a b : ℕ) → Voted t a ws → Voted t b ws → a ≡ b)
      → ((t : ℕ) → Voted t i ws → t ≤ n.peer.current_term)
      → IsDurable g n.peer
      → IsDurable g n'.peer
      → (n'.peer.peers ≡ n.peer.peers) × (n'.peer.me ≡ n.peer.me)
      → IsArrival g p.1 n.peer n'.peer
      → IsMember g ws led i n'
  arrival-IsMember n n' p m piece to once before d d' same q =
      let a = n.peer in
      let b = n'.peer in
      let logged : IsLed ws led b.log = elim q.log [
        | inl l ↦ subst (IsLed ws led) (sym l) m.logged
        | inr (t, l) ↦ LogAfter-IsLed p a.log b.log piece m.logged l
      ] in
      let own : OwnsTerm ws led i b = λ v. elim q.log [
        | inl l ↦
            (let e = same_term a b before q.later v in
              l ∙ m.own (subst (λ (t : ℕ). Voted t i ws) e v) ∙ ap led (sym e))
        | inr (t, l) ↦
            (let (c, vc, other) = piece.sender in
              absurd (other (once p.1.term c i vc (subst (λ (u : ℕ). Voted u i ws) t v) ∙ sym to)))
      ] in
      record {
        whole = record {
          index = q.index ∙ m.whole.index;
          term = q.term ∙ m.whole.term;
          head = head-first_term b.log logged;
        };
        logged = logged;
        own = own;
        saved = saved-OwnsTerm a b d d' m.saved own same q.saves;
        leads =
            λ l. let (l', e) = q.leads l in subst (λ (t : ℕ). Voted t i ws) (sym e) (m.leads l');
      }
