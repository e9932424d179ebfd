-- ===== src/Raft/Logs/Checked.antt =====
-- The consistency check of `HeartbeatHandler` of src/raft/raft.go, and what follows it, at a peer
-- without a snapshot.
use spring.Common.{
  >>=-eq-some, ℕ, zero, suc, false, ◌<◌, ◌≡◌, ◌⊎◌, inl, inr, refl, some, arith, List, [], ◌∷◌, ◌++◌,
  take, set, get_elem?, Bool-cases, ◌==◌, pos, sym, ap, ◌∙◌, subst, ==_iff,
}
use spring.Raft.Types.{Raft, Gob, Log, AppendEntriesArgs, AppendEntriesReply}
use spring.Raft.Index.{is_leader}
use spring.Raft.Persist.{persist}
use spring.Raft.Append.{
  Outcome, check_entry, accept, conflict, with_checked, checked_term, truncate, extend, kept,
  is_nil,
}
use spring.Raft.Valid.{first_term}
use spring.Raft.Node.{restart}
use spring.Raft.Node.Durable.{make-persist}

-- No snapshot has been taken: the slice starts with the entry that `Make` puts there.
pub record IsWhole (rf : Raft) : Type 0 where
  pub index : rf.last_included_index ≡ 0
  pub term : rf.last_included_term ≡ 0
  pub head : first_term rf.log ≡ some 0

-- The log of a peer after a message: the same, cut, or made longer behind the checked entry.
abbrev pub LogAfter : AppendEntriesArgs → List Log → List Log → Type 0
LogAfter args old new =
    (new ≡ old)
    ⊎ (((k : ℕ) × (0 < k) × (new ≡ take k old))
        ⊎ ((e : Log) × (get_elem? old args.prev_log_index ≡ some e)
            × (args.prev_log_term ≡ e.log_term)
            × (is_nil args.entries ≡ false)
            × (new ≡ take (suc args.prev_log_index) old ++ args.entries)))

head-term :
    (l : List Log) (e : Log) (t : ℕ)
    → first_term l ≡ some t
    → get_elem? l 0 ≡ some e
    → e.log_term ≡ t
head-term [] e t h at = absurd (cc at)
head-term (x ∷ xs) e t h at = ground arith

set-head : (l : List Log) (e : Log) → get_elem? l 0 ≡ some e → set l 0 e ≡ l
set-head [] e at = refl
set-head (x ∷ xs) e at = let k : x ≡ e = cc at in ap (λ y. y ∷ xs) (sym k)

with_checked-whole :
    (rf : Raft) (i : ℕ) (e : Log)
    → IsWhole rf
    → get_elem? rf.log i ≡ some e
    → (with_checked rf i e ≡ rf) × (checked_term rf i e ≡ e.log_term)
with_checked-whole rf zero e w at =
    let t : rf.last_included_term ≡ e.log_term = w.term ∙ sym (head-term rf.log e 0 w.head at) in
    (
      ap (λ (u : ℕ). record rf { log = set rf.log 0 (record e { log_term = u }) }) t
          ∙ ap (λ (l : List Log). record rf { log = l }) (set-head rf.log e at),
      t,
    )
with_checked-whole rf (suc i) e w at = ground arith

-- What the consistency check and what follows it do to a peer that has entered the term.
pub record IsChecked (g : Gob) (args : AppendEntriesArgs) (a b : Raft) : Type 0 where
  pub index : b.last_included_index ≡ a.last_included_index
  pub term : b.last_included_term ≡ a.last_included_term
  pub same_term : b.current_term ≡ a.current_term
  pub leads : is_leader b.state ≡ is_leader a.state
  pub saves : (b.persister ≡ a.persister) ⊎ ((restart g b).current_term ≡ b.current_term)
  pub log : LogAfter args a.log b.log

module _ (g : Gob) (args : AppendEntriesArgs) (rf : Raft) (reply : AppendEntriesReply) where
  accept-IsChecked :
      (e : Log)
      → get_elem? rf.log args.prev_log_index ≡ some e
      → args.prev_log_term ≡ e.log_term
      → IsChecked g args rf (accept g args.prev_log_index args rf reply).peer
  unfolding accept persist
  accept-IsChecked e at t = elim (Bool-cases (is_nil args.entries)) [
    | inl nothing ↦ ground (arith, nothing)
    | inr more ↦
        (let longer = extend args.prev_log_index args.entries rf in
          record {
            index = ground (arith, more);
            term = ground (arith, more);
            same_term = ground (arith, more);
            leads = ground (arith, more);
            saves = inr (ground (arith, more, make-persist g longer));
            log = inr (inr (e, at, t, more, ground (arith, more)));
          })
  ]

  conflict-IsChecked :
      (term : ℕ) → IsChecked g args rf (conflict g args.prev_log_index term rf reply).peer
  unfolding conflict persist
  conflict-IsChecked term =
      let shorter = truncate args.prev_log_index rf in
      record {
        index = refl;
        term = refl;
        same_term = refl;
        leads = refl;
        saves = inr (ground (arith, make-persist g shorter));
        log = inr (inl (kept args.prev_log_index, ground arith, refl));
      }

  -- From the consistency check on.
  pub check_entry-IsChecked :
      {out : Outcome}
      → IsWhole rf
      → check_entry g args rf reply (pos args.prev_log_index) ≡ some out
      → IsChecked g args rf out.peer
  unfolding check_entry
  check_entry-IsChecked {out} w h =
      let i = args.prev_log_index in
      let (e, at, h1) = >>=-eq-some (get_elem? rf.log i) _ h in
      let (same_rf, same_term) = with_checked-whole rf i e w at in
      elim (Bool-cases (args.prev_log_term == checked_term rf i e)) [
        | inl y ↦
            (let o : accept g i args (with_checked rf i e) reply ≡ out = ground (arith, h1, y) in
              let o' = subst (λ (r : Raft). accept g i args r reply ≡ out) same_rf o in
              subst (λ (x : Outcome). IsChecked g args rf x.peer) o'
                (accept-IsChecked e at ((==_iff _ _).0 y ∙ same_term)))
        | inr n ↦
            (let term = checked_term rf i e in
              let o : conflict g i term (with_checked rf i e) reply ≡ out = ground (arith, h1, n) in
              let o' = subst (λ (r : Raft). conflict g i term r reply ≡ out) same_rf o in
              subst (λ (x : Outcome). IsChecked g args rf x.peer) o' (conflict-IsChecked term))
      ]
