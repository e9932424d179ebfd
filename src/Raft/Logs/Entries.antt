-- ===== src/Raft/Logs/Entries.antt =====
-- A new entry and a crash of one peer of src/raft/raft.go keep it a member.
use mathlib.Core.List.{append-nil}
use spring.Common.{
  ℕ, ◌≡◌, ◌≢◌, ◌⊎◌, inl, inr, refl, some, List, [], ◌∷◌, ◌++◌, true, false, ◌==◌, ==_iff,
  if◌then◌else◌, arith, ap, sym, ◌∙◌, subst, Bool-cases,
}
use spring.Raft.Valid.{first_term}
use spring.Raft.Types.{Raft, Gob, Log, Command}
use spring.Raft.Index.{is_leader}
use spring.Raft.Persist.{make, persist}
use spring.Raft.Leader.{start, appended}
use spring.Raft.Node.{Node, Ballot, restart}
use spring.Raft.Node.Durable.{IsDurable, make-persist}
use spring.Raft.Node.Sound.{restart-restart}
use spring.Raft.Node.OneVote.{Voted}
use spring.Raft.Logs.Sound.{Led, IsLed, Grown, IsLed-Grown, IsLed-append}
use spring.Raft.Logs.Matched.{IsMember, OwnsTerm}

-- Only the logs of terms that `i` has won have got longer.
abbrev pub Extended : List Ballot → ℕ → Led → Led → Type 0
Extended ws i led led' =
    (t : ℕ) → (led' t ≡ led t) ⊎ (Voted t i ws × ((es : List Log) × (led' t ≡ led t ++ es)))

module _ (ws : List Ballot) (i : ℕ) (led led' : Led) (longer : Extended ws i led led') where
  pub Extended-Grown : Grown ws led led'
  Extended-Grown t = elim (longer t) [ inl same ↦ inl same | inr (v, l) ↦ inr (inr l) ]

  pub Extended-longer : (t : ℕ) → (es : List Log) × (led' t ≡ led t ++ es)
  Extended-longer t = elim (longer t) [
    | inl same ↦ ([], same ∙ sym (append-nil (led t)))
    | inr (v, l) ↦ l
  ]

  Extended-other :
      (j t : ℕ)
      → ((t a b : ℕ) → Voted t a ws → Voted t b ws → a ≡ b)
      → j ≢ i
      → Voted t j ws
      → led' t ≡ led t
  Extended-other j t once ne v = elim (longer t) [
    | inl same ↦ same
    | inr (v', l) ↦ absurd (ne (once t j i v v'))
  ]

  -- The other peers stay members.
  pub IsMember-Extended :
      (g : Gob) (j : ℕ) (n : Node)
      → ((t a b : ℕ) → Voted t a ws → Voted t b ws → a ≡ b)
      → j ≢ i
      → IsMember g ws led j n
      → IsMember g ws led' j n
  IsMember-Extended g j n once ne m = record {
    whole = m.whole;
    logged = IsLed-Grown ws led led' n.peer.log Extended-Grown m.logged;
    own = λ v. m.own v ∙ sym (Extended-other j n.peer.current_term once ne v);
    saved = λ v. m.saved v ∙ sym (Extended-other j (restart g n.peer).current_term once ne v);
    leads = m.leads;
  }

pub start-leads :
    (g : Gob) (x : Command) (a : Raft)
    → is_leader a.state ≡ true
    → (start g x a).0 ≡ persist g (appended x a)
unfolding start
start-leads g x a l = ground (arith, l)

pub start-refuses :
    (g : Gob) (x : Command) (a : Raft) → is_leader a.state ≡ false → (start g x a).0 ≡ a
unfolding start
start-refuses g x a l = ground (arith, l)

abbrev longer_at : ℕ → Log → Led → Led
longer_at t e led u = if u == t then led u ++ (e ∷ []) else led u

longer_at_self : (t : ℕ) (e : Log) (led : Led) → longer_at t e led t ≡ led t ++ (e ∷ [])
longer_at_self t e led = ground arith

longer_at-Extended :
    (ws : List Ballot) (i t : ℕ) (e : Log) (led : Led)
    → Voted t i ws
    → Extended ws i led (longer_at t e led)
longer_at-Extended ws i t e led v u = elim (Bool-cases (u == t)) [
  | inl y ↦ inr (subst (λ x. Voted x i ws) (sym ((==_iff u t).0 y)) v, (e ∷ [], rw y refl))
  | inr y ↦ inl (rw y refl)
]

first_term-append :
    (l : List Log) (e : Log) (t : ℕ) → first_term l ≡ some t → first_term (l ++ (e ∷ [])) ≡ some t
first_term-append [] e t h = absurd (cc h)
first_term-append (x ∷ l) e t h = h

module _ (g : Gob) (ws : List Ballot) (led : Led) (i : ℕ) (n : Node)
    (m : IsMember g ws led i n) where
  -- `Start` at a leader.
  pub appended-IsMember :
      (x : Command) (cast : List Ballot)
      → is_leader n.peer.state ≡ true
      → IsDurable g (persist g (appended x n.peer))
      → (led' : Led) × Extended ws i led led'
        × IsMember g ws led' i (record { peer = persist g (appended x n.peer); cast = cast })
  unfolding persist
  appended-IsMember x cast l d =
      let a = n.peer in
      let t = a.current_term in
      let e : Log = record { log_term = t; command = x } in
      let v = m.leads l in
      let led' = longer_at t e led in
      let grown = Extended-Grown ws i led led' (longer_at-Extended ws i t e led v) in
      let own : a.log ++ (e ∷ []) ≡ led' t =
        ap (λ l. l ++ (e ∷ [])) (m.own v) ∙ sym (longer_at_self t e led) in
      (
        led',
        longer_at-Extended ws i t e led v,
        record {
          whole = record {
            index = m.whole.index;
            term = m.whole.term;
            head = first_term-append a.log e 0 m.whole.head;
          };
          logged =
              IsLed-append ws led' a.log e (IsLed-Grown ws led led' a.log grown m.logged) (sym own)
                (i, v);
          own = λ w. own;
          saved = λ w. d.log ∙ own ∙ ap led' (ground (arith, make-persist g (appended x a)));
          leads = λ h. v;
        },
      )

  restart-follows : (a : Raft) → is_leader (restart g a).state ≡ false
  unfolding make
  restart-follows a = ground arith

  pub crash-IsMember :
      (cast : List Ballot)
      → IsDurable g n.peer
      → IsMember g ws led i (record { peer = restart g n.peer; cast = cast })
  crash-IsMember cast d = record {
    whole = record {
      index = d.last_included_index ∙ m.whole.index;
      term = d.last_included_term ∙ m.whole.term;
      head = ap first_term d.log ∙ m.whole.head;
    };
    logged = subst (IsLed ws led) (sym d.log) m.logged;
    own = m.saved;
    saved = subst (OwnsTerm ws led i) (sym (restart-restart g n.peer)) m.saved;
    leads = λ l. absurd (cc (l, restart-follows n.peer));
  }
