-- ===== src/Raft/Elect.antt =====
-- Whom a peer of src/raft/raft.go votes for, and when it becomes the leader.
use spring.Raft.Types.{Raft, Gob, Log, RequestVoteArgs, RequestVoteReply, leader}
use spring.Raft.Index.{last_entry, max_int}
use spring.Raft.Persist.{persist}
use spring.Raft.Vote.{
  request_vote_handler, enter_term, cast_vote, grants, fill, fill_from, become_leader,
}
use spring.Raft.Leader.{send_request_vote, Slot}
use spring.Raft.Valid.{IsValid}
use spring.Raft.Valid.Slices.{last_entry-some}
use mathlib.Core.List.{append-nil}
use spring.Common.{
  length-append, length-replicate, ℕ, zero, suc, ◌+◌, ◌/◌, ◌%◌, ◌^◌, arith, ◌≡◌, ◌≢◌, refl, some,
  none, ◌≤◌, ◌<◌, List, [], ◌∷◌, ◌++◌, leb, length, replicate, set, ◌∙◌, ap, Option-cases, inl, inr,
  true, false, ◌⊎◌, ◌↔◌,
}

last_entry-enter_term : (term : ℕ) (rf : Raft) → last_entry (enter_term term rf) ≡ last_entry rf
unfolding last_entry
last_entry-enter_term term rf = ground arith

-- The conditions of the paper for a vote, with `last` the peer's last entry.
abbrev pub MayVote : RequestVoteArgs → Raft → Log → Type 0
MayVote args rf last =
    (rf.current_term ≤ args.term)
    × ((rf.current_term < args.term)
        ⊎ (rf.voted_for ≡ none)
        ⊎ (rf.voted_for ≡ some args.candidate_id))
    × ((last.log_term < args.last_log_term)
        ⊎ ((last.log_term ≡ args.last_log_term) × (rf.log_length ≤ args.last_log_index + 1)))

grants_iff :
    (args : RequestVoteArgs) (rf : Raft) (last : Log)
    → (grants args (enter_term args.term rf) last ≡ true) ↔ MayVote args rf last
grants_iff args rf last = (λ h. ground arith, λ h. ground arith)

module _ (g : Gob) (now : ℕ) (args : RequestVoteArgs) (rf : Raft) where
  handler-eq :
      (last : Log)
      → last_entry rf ≡ some last
      → let entered = enter_term args.term rf in
        let granted = grants args entered last in
        request_vote_handler g now args rf
        ≡ some (
          cast_vote g now args granted entered,
          record { term = rf.current_term; vote_granted = granted },
        )
  unfolding request_vote_handler
  handler-eq last h = rw (last_entry-enter_term args.term rf ∙ h)

  -- On a well-formed peer `RequestVoteHandler` does not panic; it replies with the peer's term from
  -- before the request, and grants the vote exactly where the candidate's term is no older, the
  -- peer is free to vote for it in that term, and its log is at least as new as the peer's.
  pub vote_granted_iff :
      IsValid rf
      → (last : Log) × (out : Raft × RequestVoteReply) × (last_entry rf ≡ some last)
        × (request_vote_handler g now args rf ≡ some out)
        × (out.1.term ≡ rf.current_term)
        × ((out.1.vote_granted ≡ true) ↔ MayVote args rf last)
  vote_granted_iff v =
      let (last, h) = last_entry-some rf v in
      let entered = enter_term args.term rf in
      let granted = grants args entered last in
      (
        last,
        (
          cast_vote g now args granted entered,
          record { term = rf.current_term; vote_granted = granted },
        ),
        h,
        handler-eq last h,
        refl,
        grants_iff args rf last,
      )

  -- A refusal saves nothing, although it may have raised the peer's term: the test of the term in
  -- the condition of `persist` comes after the term was raised.
  pub refusal_unsaved :
      {rf' : Raft} {reply : RequestVoteReply}
      → request_vote_handler g now args rf ≡ some (rf', reply)
      → reply.vote_granted ≡ false
      → (rf'.persister ≡ rf.persister) × (rf'.current_term ≡ max_int rf.current_term args.term)
  unfolding request_vote_handler
  refusal_unsaved h e = elim (Option-cases (last_entry (enter_term args.term rf))) [
    | inl panic ↦ absurd (ground arith)
    | inr (last, f) ↦ ground arith
  ]

leb_refl : (i : ℕ) → leb i i ≡ true
leb_refl i = ground arith

leb-suc : (i n : ℕ) → leb (i + suc n) i ≡ false
leb-suc i n = ground arith

-- The loops that set `NextIndex` and `MatchIndex`.
replicate-snoc {ℓ} : {A : Type ℓ} (i : ℕ) (v : A) → replicate i v ++ (v ∷ []) ≡ replicate (suc i) v
replicate-snoc zero v = refl
replicate-snoc (suc i) v = ap (λ l. v ∷ l) (replicate-snoc i v)

set-replicate {ℓ} :
    {A : Type ℓ} (i : ℕ) (v y : A) (ys : List A)
    → set (replicate i v ++ (y ∷ ys)) i v ≡ replicate (suc i) v ++ ys
set-replicate zero v y ys = refl
set-replicate (suc i) v y ys = ap (λ l. v ∷ l) (set-replicate i v y ys)

fill-grow {ℓ} :
    {A : Type ℓ} (i : ℕ) (v : A) → fill i v (replicate i v ++ []) ≡ replicate (i + 1) v ++ []
fill-grow i v =
    let next : suc i ≡ i + 1 = omega arith in
    rw (append-nil, append-nil, length-replicate i v, leb_refl i)
      (replicate-snoc i v ∙ ap (λ k. replicate k v) next)

fill-set {ℓ} :
    {A : Type ℓ} (i : ℕ) (v y : A) (ys : List A)
    → fill i v (replicate i v ++ (y ∷ ys)) ≡ replicate (i + 1) v ++ ys
fill-set i v y ys =
    let next : suc i ≡ i + 1 = omega arith in
    rw (length-append (replicate i v) (y ∷ ys), length-replicate i v, leb-suc i (length ys))
      (set-replicate i v y ys ∙ ap (λ k. replicate k v ++ ys) next)

fill_from-replicate {ℓ} :
    {A : Type ℓ} (n i : ℕ) (v : A) (ys : List A)
    → length ys ≤ n
    → fill_from n i v (replicate i v ++ ys) ≡ replicate (i + n) v
unfolding fill_from
fill_from-replicate zero i v [] h =
    append-nil (replicate i v) ∙ ap (λ k. replicate k v) (omega arith)
fill_from-replicate zero i v (y ∷ ys) h = absurd (omega arith)
fill_from-replicate (suc n) i v [] h =
    ap (fill_from n (i + 1) v) (fill-grow i v)
    ∙ fill_from-replicate n (i + 1) v [] (omega arith)
    ∙ ap (λ k. replicate k v) (omega arith)
fill_from-replicate (suc n) i v (y ∷ ys) h =
    ap (fill_from n (i + 1) v) (fill-set i v y ys)
    ∙ fill_from-replicate n (i + 1) v ys (omega arith)
    ∙ ap (λ k. replicate k v) (omega arith)

-- A peer that wins starts with every other peer's next index at the end of its log, and with
-- nothing matched, whatever an earlier term as leader has left.
pub become_leader_lem :
    (rf : Raft)
    → length rf.next_index ≤ rf.peers
    → length rf.match_index ≤ rf.peers
    → ((become_leader rf).next_index ≡ replicate rf.peers rf.log_length)
      × ((become_leader rf).match_index ≡ replicate rf.peers none)
unfolding become_leader
become_leader_lem rf p q = (
  fill_from-replicate rf.peers 0 rf.log_length rf.next_index p
      ∙ ap (λ k. replicate k rf.log_length) (omega arith),
  fill_from-replicate rf.peers 0 none rf.match_index q ∙ ap (λ k. replicate k none) (omega arith),
)

-- Where the reply to a vote request makes a leader of a peer that was none, the reply grants the
-- vote, the peer is still in the term of its request and has its own vote, and the votes counted,
-- this one included, are more than half of the peers.
pub elected_by_majority :
    (g : Gob) (now vote : ℕ) (args : RequestVoteArgs) (reply : RequestVoteReply) (rf : Raft)
    {rf' : Raft} {vote' : ℕ} {filled : List (ℕ × Slot)}
    → send_request_vote g now args reply vote rf ≡ some (rf', vote', filled)
    → rf.state ≢ leader
    → rf'.state ≡ leader
    → (reply.vote_granted ≡ true)
      × (rf.current_term ≡ args.term)
      × (rf'.current_term ≡ args.term)
      × (rf.voted_for ≡ some rf.me)
      × (vote' ≡ (vote + 1) % 2 ^ 32)
      × (rf.peers / 2 % 2 ^ 32 < vote')
unfolding send_request_vote persist
elected_by_majority g now vote args reply rf h was is_now = ground arith
