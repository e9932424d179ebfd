-- ===== src/Raft/Logs/Sending.antt =====
-- What `HeartBeatLauncher` of src/raft/raft.go sends is a part of the leader's log.
use spring.Common.{
  ℕ, suc, ◌-◌, ◌≡◌, ◌≢◌, ◌⊎◌, inl, inr, refl, some, List, [], ◌∷◌, Bool, true, false, ◌==◌,
  if◌then◌else◌, arith, ap, sym, ◌∙◌, subst, Bool-cases, ◌>>=◌, >>=-eq-some, get_elem?, drop, ltb,
}
use mathlib.Core.Option.{some-injective}
use spring.Raft.Types.{Raft, Log, AppendEntriesArgs, SnapshotArgs}
use spring.Raft.Index.{is_leader, entry_at}
use spring.Raft.Vote.{others}
use spring.Raft.Append.{is_nil}
use spring.Raft.Leader.{
  Slot, slot, slots, Message, append_entries, send_snapshot, message, heartbeat_tick,
}
use spring.Raft.Valid.Slices.{entry_at-eq}
use spring.Raft.Replicate.{slot-IsSlot, message-append}
use spring.Raft.Node.{Ballot}
use spring.Raft.Node.OneVote.{Voted}
use spring.Raft.Cluster.Quorum.{times}
use spring.Raft.Cluster.Electing.{times-others_from}
use spring.Raft.Logs.{posted}
use spring.Raft.Logs.Sound.{Led, IsLed}
use spring.Raft.Logs.Matched.{IsPiece, AllPieces}

slot-ready :
    (rf : Raft) (i : ℕ) {s : Slot}
    → slot rf i ≡ some s
    → (next : ℕ) × (get_elem? rf.next_index i ≡ some next)
unfolding slot
slot-ready rf i h = let (next, at, h') = >>=-eq-some (get_elem? rf.next_index i) _ h in (next, at)

message-cases :
    (m : Message)
    → ((args : AppendEntriesArgs) × (m ≡ append_entries args))
      ⊎ ((args : SnapshotArgs) × (m ≡ send_snapshot args))
message-cases (append_entries args) = inl (args, refl)
message-cases (send_snapshot args) = inr (args, refl)

rest_cases :
    (entries l : List Log) (prev next : ℕ) (more : Bool)
    → entries ≡ (if more then drop next l else [])
    → next ≡ suc prev
    → (is_nil entries ≡ true) ⊎ (entries ≡ drop (suc prev) l)
rest_cases entries l prev next true e n = inr (e ∙ ap (λ k. drop k l) n)
rest_cases entries l prev next false e n = inl (ap is_nil e)

not_among : (i x : ℕ) (xs : List ℕ) → times i (x ∷ xs) ≡ 0 → (x ≢ i) × (times i xs ≡ 0)
not_among i x xs h = elim (Bool-cases (x == i)) [
  | inl y ↦ absurd (ground (arith, h, y))
  | inr y ↦ (λ e. ground (arith, e, y), ground (arith, h, y))
]

module _ (ws : List Ballot) (led : Led) (i : ℕ) (rf : Raft) (start : rf.last_included_index ≡ 0)
    (logged : IsLed ws led rf.log) (leads : Voted rf.current_term i ws) where
  slot-IsPiece :
      (to : ℕ) (s : Slot) (args : AppendEntriesArgs)
      → slot rf to ≡ some s
      → message rf [] s ≡ append_entries args
      → to ≢ i
      → IsPiece ws led (to, args)
  slot-IsPiece to s args filled sent ne =
      let (t, p, es, term) = message-append rf [] s args sent in
      let (next, ready) = slot-ready rf to filled in
      let k = slot-IsSlot rf to next args.prev_log_term s ready filled t in
      let (e, at, e_term) = k.checked in
      let prev : args.prev_log_index ≡ next - 1 = p ∙ k.prev in
      let above = k.above in
      let here : entry_at rf (next - 1) ≡ get_elem? rf.log (next - 1 - rf.last_included_index) =
        entry_at-eq rf (next - 1) (omega (arith, above)) in
      record {
        full = rf.log;
        logged = logged;
        checked = (e, ap (get_elem? rf.log) (omega (arith, prev, start)) ∙ sym here ∙ at, e_term);
        rest =
            rest_cases args.entries rf.log args.prev_log_index (next - rf.last_included_index)
              (ltb next rf.log_length) (es ∙ k.rest) (omega (arith, above, start, prev));
        sender = (i, subst (λ u. Voted u i ws) (sym term) leads, λ e. ne (sym e));
      }

  slots-AllPieces :
      (to : List ℕ) {filled : List (ℕ × Slot)}
      → slots rf to ≡ some filled
      → times i to ≡ 0
      → AllPieces ws led (posted rf filled)
  unfolding posted
  slots-AllPieces [] {filled} h others =
      subst (λ f. AllPieces ws led (posted rf f)) (some-injective [] filled h) tt
  slots-AllPieces (x ∷ xs) {filled} h others =
      let (s, f, h1) = >>=-eq-some (slot rf x) _ h in
      let (rest, fs, h2) = >>=-eq-some (slots rf xs) _ h1 in
      let (ne, others') = not_among i x xs others in
      let pieces = slots-AllPieces xs fs others' in
      subst (λ f. AllPieces ws led (posted rf f)) (some-injective ((x, s) ∷ rest) filled h2)
        (elim (message-cases (message rf [] s)) [
          | inl (args, sent) ↦ rw sent (slot-IsPiece x s args f sent ne, pieces)
          | inr (args, sent) ↦ rw sent pieces
        ])

-- What one round of `HeartBeatGoroutine` sends.
pub posted-AllPieces :
    (ws : List Ballot) (led : Led) (i now : ℕ) (a : Raft) {rf : Raft} {filled : List (ℕ × Slot)}
    → a.last_included_index ≡ 0
    → IsLed ws led a.log
    → (is_leader a.state ≡ true → Voted a.current_term i ws)
    → a.me ≡ i
    → heartbeat_tick now a ≡ some (rf, filled)
    → AllPieces ws led (posted rf filled)
unfolding heartbeat_tick posted
posted-AllPieces ws led i now a {rf} {filled} start logged leads me h =
    elim (Bool-cases (is_leader a.state)) [
      | inl l ↦
          (let timed = record a { last_rpc = now } in
            let h' : (do f ← slots timed (others timed); some (timed, f)) ≡ some (rf, filled) =
              ground (arith, h, l) in
            let (f, fs, h1) = >>=-eq-some (slots timed (others timed)) _ h' in
            let there : (timed, f) ≡ (rf, filled) = some-injective (timed, f) (rf, filled) h1 in
            let out : times i (others timed) ≡ 0 =
              ground (arith, times-others_from a.peers 0 a.me i, me) in
            subst (λ (p : Raft × List (ℕ × Slot)). AllPieces ws led (posted p.0 p.1)) there
              (slots-AllPieces ws led i timed start logged (leads l) (others timed) fs out))
      | inr no_leader ↦
          (let nothing : Raft × List (ℕ × Slot) = (a, []) in
            let e : nothing ≡ (rf, filled) = ground (arith, h, no_leader) in
            subst (λ (p : Raft × List (ℕ × Slot)). AllPieces ws led (posted p.0 p.1)) e tt)
    ]
