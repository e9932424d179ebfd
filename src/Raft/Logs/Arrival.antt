-- ===== src/Raft/Logs/Arrival.antt =====
-- What `HeartbeatHandler` of src/raft/raft.go does to the log of a peer without a snapshot.
use spring.Common.{
  ℕ, true, false, ◌≤◌, ◌≡◌, ◌⊎◌, inl, inr, some, arith, Bool-cases, ltb, leb, pos, sym, ap, ◌∙◌,
  subst, sub_ℕ-pos, sub_ℕ,
}
use spring.Raft.Types.{Raft, Gob, AppendEntriesArgs, follower}
use spring.Raft.Index.{is_leader, v2p_index}
use spring.Raft.Persist.{persist}
use spring.Raft.Append.{Outcome, heartbeat_handler, check_entry, raise_term, blank_reply}
use spring.Raft.Node.{restart}
use spring.Raft.Receive.{timed, log-timed, index-timed}
use spring.Raft.Node.Durable.{make-persist}
use spring.Raft.Logs.Checked.{IsWhole, LogAfter, IsChecked, check_entry-IsChecked}

-- What a message does to a peer.
pub record IsArrival (g : Gob) (args : AppendEntriesArgs) (a b : Raft) : Type 0 where
  pub index : b.last_included_index ≡ a.last_included_index
  pub term : b.last_included_term ≡ a.last_included_term
  pub later : a.current_term ≤ b.current_term
  pub leads :
      is_leader b.state ≡ true → (is_leader a.state ≡ true) × (b.current_term ≡ a.current_term)
  pub saves : (b.persister ≡ a.persister) ⊎ ((restart g b).current_term ≡ b.current_term)
  pub log : (b.log ≡ a.log) ⊎ ((b.current_term ≡ args.term) × LogAfter args a.log b.log)

module _ (g : Gob) (now : ℕ) (args : AppendEntriesArgs) (a : Raft) where
  timed-IsWhole : IsWhole a → IsWhole (timed g now args a)
  unfolding persist
  timed-IsWhole w = ground (arith, w)

  timed-saves :
      ((timed g now args a).persister ≡ a.persister)
      ⊎ ((restart g (timed g now args a)).current_term ≡ (timed g now args a).current_term)
  unfolding persist
  timed-saves =
      ground (arith, make-persist g (record a { current_term = args.term; state = follower }))

  timed-later : a.current_term ≤ (timed g now args a).current_term
  unfolding persist
  timed-later = ground arith

  timed-leads :
      is_leader (timed g now args a).state ≡ true
      → (is_leader a.state ≡ true) × ((timed g now args a).current_term ≡ a.current_term)
  unfolding persist
  timed-leads h = ground arith

  timed-term :
      ltb args.term (timed g now args a).current_term ≡ false
      → (timed g now args a).current_term ≡ args.term
  unfolding persist
  timed-term h = ground arith

  timed-same : (timed g now args a).me ≡ a.me × ((timed g now args a).peers ≡ a.peers)
  unfolding persist
  timed-same = ground arith

  incl_term-timed : (timed g now args a).last_included_term ≡ a.last_included_term
  unfolding persist
  incl_term-timed = ground arith

  -- What is saved at the entry of the term, or after it.
  saved_twice :
      (b : Raft)
      → (b.persister ≡ (timed g now args a).persister)
        ⊎ ((restart g b).current_term ≡ b.current_term)
      → ((timed g now args a).persister ≡ a.persister)
        ⊎ ((restart g (timed g now args a)).current_term ≡ (timed g now args a).current_term)
      → (b.me ≡ a.me) × (b.peers ≡ a.peers)
      → b.current_term ≡ (timed g now args a).current_term
      → (b.persister ≡ a.persister) ⊎ ((restart g b).current_term ≡ b.current_term)
  saved_twice b (inr p) q s e = inr p
  saved_twice b (inl p) (inl q) s e = inl (p ∙ q)
  saved_twice b (inl p) (inr q) (me, peers) e =
      let t = timed g now args a in
      let again : restart g b ≡ restart g t = cc (p, me, peers, timed-same.0, timed-same.1) in
      inr (ap (λ (x : Raft). x.current_term) again ∙ q ∙ sym e)

  -- Where the message is not older than the peer's term and its check is within the log.
  checked-IsArrival :
      (b : Raft)
      → ltb args.term (timed g now args a).current_term ≡ false
      → IsChecked g args (timed g now args a) b
      → (b.me ≡ a.me) × (b.peers ≡ a.peers)
      → IsArrival g args a b
  checked-IsArrival b l c s =
      let t = timed g now args a in
      record {
        index = c.index ∙ index-timed g now args a;
        term = c.term ∙ incl_term-timed;
        later = omega (arith, timed-later, c.same_term);
        leads = λ h. let (x, y) = timed-leads (sym c.leads ∙ h) in (x, c.same_term ∙ y);
        saves = saved_twice b c.saves timed-saves s c.same_term;
        log = inr (
          c.same_term ∙ timed-term l,
          subst (λ l. LogAfter args l b.log) (log-timed g now args a) c.log,
        );
      }

  same-IsArrival :
      (b : Raft)
      → b.log ≡ (timed g now args a).log
      → b.persister ≡ (timed g now args a).persister
      → (b.me ≡ a.me) × (b.peers ≡ a.peers)
      → b.current_term ≡ (timed g now args a).current_term
      → is_leader b.state ≡ is_leader (timed g now args a).state
      → b.last_included_index ≡ (timed g now args a).last_included_index
      → b.last_included_term ≡ (timed g now args a).last_included_term
      → IsArrival g args a b
  same-IsArrival b log saved s term state index incl = record {
    index = index ∙ index-timed g now args a;
    term = incl ∙ incl_term-timed;
    later = omega (arith, timed-later, term);
    leads = λ h. let (x, y) = timed-leads (sym state ∙ h) in (x, term ∙ y);
    saves = saved_twice b (inl saved) timed-saves s term;
    log = inl (log ∙ log-timed g now args a);
  }

  pub heartbeat-IsArrival :
      {out : Outcome}
      → IsWhole a
      → heartbeat_handler g now args a ≡ some out
      → (out.peer.me ≡ a.me) × (out.peer.peers ≡ a.peers)
      → IsArrival g args a out.peer
  unfolding heartbeat_handler
  heartbeat-IsArrival {out} w h s =
      let t = timed g now args a in
      let reply = blank_reply a.current_term in
      elim (Bool-cases (ltb args.term t.current_term)) [
        | inl old ↦
            (let o : raise_term g args.term a ≡ out.peer = ground (arith, h, old) in
              same-IsArrival out.peer (sym (ap (λ (r : Raft). r.log) o))
                (sym (ap (λ (r : Raft). r.persister) o)) s
                (sym (ap (λ (r : Raft). r.current_term) o))
                (sym (ap (λ (r : Raft). is_leader r.state) o))
                (sym (ap (λ (r : Raft). r.last_included_index) o))
                (sym (ap (λ (r : Raft). r.last_included_term) o)))
        | inr l ↦ elim (Bool-cases (leb t.log_length args.prev_log_index)) [
          | inl short ↦
              (let o : t ≡ out.peer = ground (arith, h, l, short) in
                same-IsArrival out.peer (sym (ap (λ (r : Raft). r.log) o))
                  (sym (ap (λ (r : Raft). r.persister) o)) s
                  (sym (ap (λ (r : Raft). r.current_term) o))
                  (sym (ap (λ (r : Raft). is_leader r.state) o))
                  (sym (ap (λ (r : Raft). r.last_included_index) o))
                  (sym (ap (λ (r : Raft). r.last_included_term) o)))
          | inr long ↦
              (let o : check_entry g args t reply (v2p_index t args.prev_log_index) ≡ some out =
                  ground (arith, h, l, long) in
                let i : v2p_index t args.prev_log_index ≡ pos args.prev_log_index =
                  ap (sub_ℕ args.prev_log_index) (timed-IsWhole w).index
                  ∙ sub_ℕ-pos args.prev_log_index 0 (omega arith)
                  ∙ ap pos (omega arith) in
                checked-IsArrival out.peer l
                  (check_entry-IsChecked g args t reply (timed-IsWhole w)
                    (ap (check_entry g args t reply) (sym i) ∙ o))
                  s)
        ]
      ]
