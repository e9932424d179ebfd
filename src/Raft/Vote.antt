-- ===== src/Raft/Vote.antt =====
-- Leader election in src/raft/raft.go: `ElectLauncher`, `RequestVoteHandler`, and the critical
-- sections of `SendRequestVote` after its RPC has returned. `now` is the clock's reading.
-- `x - 1` of an int is compared as `y < x + 1`, since subtraction on ℕ stops at 0.
use spring.Common.{
  ℕ, zero, suc, ◌+◌, ◌-◌, ◌/◌, ◌%◌, ◌^◌, Bool, true, false, not, ◌&&◌, ◌||◌, List, [], ◌∷◌, ◌++◌,
  Option, none, some, ltb, leb, ◌==◌, if◌then◌else◌, length, set, ◌>>=◌,
}
use spring.Raft.Types.{Raft, Gob, Log, follower, leader, RequestVoteArgs, RequestVoteReply}
use spring.Raft.Index.{is_follower, last_entry}
use spring.Raft.Persist.{persist}

-- The peers to which a launcher sends: `for i := range rf.peers` without `rf.me`.
abbrev pub others_from : ℕ → ℕ → ℕ → List ℕ
others_from zero i me = []
others_from (suc n) i me = let rest = others_from n (i + 1) me in if i == me then rest else i ∷ rest

abbrev pub others : Raft → List ℕ
others rf = others_from rf.peers 0 rf.me

-- Case 0 of the handlers for votes and for snapshots.
abbrev pub enter_term : ℕ → Raft → Raft
enter_term term rf =
    if ltb rf.current_term term
    then record rf { state = follower; current_term = term; voted_for = none }
    else rf

abbrev pub voted_other : Option ℕ → ℕ → Bool
voted_other none c = false
voted_other (some v) c = not (v == c)

-- The candidate's log is at least as new as one of `log_length` entries that ends in `last`.
abbrev pub up_to_date : RequestVoteArgs → Log → ℕ → Bool
up_to_date args last log_length =
    ltb last.log_term args.last_log_term
    || (args.last_log_term == last.log_term && leb log_length (args.last_log_index + 1))

abbrev pub grants : RequestVoteArgs → Raft → Log → Bool
grants args rf last =
    not (ltb args.term rf.current_term)
    && (not (voted_other rf.voted_for args.candidate_id) && up_to_date args last rf.log_length)

abbrev pub vote_for : ℕ → RequestVoteArgs → Raft → Raft
vote_for now args rf = record rf {
  current_term = args.term;
  voted_for = some args.candidate_id;
  last_rpc = now;
}

module _ (g : Gob) where
  -- What `RequestVoteHandler` does once its three tests have set `reply.VoteGranted`.
  abbrev pub cast_vote : ℕ → RequestVoteArgs → Bool → Raft → Raft
  cast_vote now args granted rf =
      let rf' = if granted then vote_for now args rf else rf in
      if granted || ltb rf'.current_term args.term then persist g rf' else rf'

  unfoldable pub request_vote_handler :
      ℕ → RequestVoteArgs → Raft → Option (Raft × RequestVoteReply)
  request_vote_handler now args rf = do
    let entered = enter_term args.term rf
    last ← last_entry entered
    let granted = grants args entered last
    some (
      cast_vote now args granted entered,
      record { term = rf.current_term; vote_granted = granted },
    )

  -- The new state, the request, and the peers to which it is sent.
  unfoldable pub elect_launcher : ℕ → Raft → Option (Raft × RequestVoteArgs × List ℕ)
  elect_launcher now rf = do
    let candidate = record rf { current_term = rf.current_term + 1; voted_for = some rf.me }
    let saved = record (persist g candidate) { last_rpc = now }
    last ← last_entry saved
    some (
      saved,
      record {
        term = saved.current_term;
        candidate_id = saved.me;
        last_log_index = saved.log_length - 1;
        last_log_term = last.log_term;
      },
      others saved,
    )

  -- One wake-up of `ElectionGoroutine` after a sleep of `ms`; `none` inside means no election.
  unfoldable pub election_tick : ℕ → ℕ → Raft → Option (Raft × Option (RequestVoteArgs × List ℕ))
  unfolding elect_launcher
  election_tick now ms rf =
      if is_follower rf.state && ltb ms (now - rf.last_rpc)
      then (do (rf', args, to) ← elect_launcher now rf; some (rf', some (args, to)))
      else some (rf, none)

  -- Section 3 of `SendRequestVote`: a newer term in a refusal.
  unfoldable pub vote_refused : RequestVoteReply → Raft → Raft
  vote_refused reply rf =
      if not reply.vote_granted && ltb rf.current_term reply.term
      then record (persist g (record rf { current_term = reply.term })) { state = follower }
      else rf

-- Section 1 of `SendRequestVote`: a reply to an election of another term is dropped.
unfoldable pub vote_stale : RequestVoteArgs → Raft → Raft × Bool
vote_stale args rf =
    if rf.current_term == args.term then (rf, false) else (record rf { state = follower }, true)

-- Section 2: `atomic.AddUint32(vote, 1)`, and the test of the majority, which reads the peer
-- without the lock.
abbrev pub add_vote : ℕ → ℕ
add_vote vote = (vote + 1) % 2 ^ 32

abbrev pub voted_self : Option ℕ → ℕ → Bool
voted_self none me = false
voted_self (some v) me = v == me

unfoldable pub wins : ℕ → Raft → Bool
wins vote rf = ltb (rf.peers / 2 % 2 ^ 32) vote && voted_self rf.voted_for rf.me

-- One round of the loop that sets `NextIndex` or `MatchIndex`.
abbrev pub fill {ℓ} : {A : Type ℓ} → ℕ → A → List A → List A
fill i v xs = if leb (length xs) i then xs ++ (v ∷ []) else set xs i v

unfoldable pub fill_from {ℓ} : {A : Type ℓ} → ℕ → ℕ → A → List A → List A
fill_from zero i v xs = xs
fill_from (suc n) i v xs = fill_from n (i + 1) v (fill i v xs)

-- The body of section 2, under the lock; the first heartbeat follows, still under it.
unfoldable pub become_leader : Raft → Raft
become_leader rf = record rf {
  state = leader;
  next_index = fill_from rf.peers 0 rf.log_length rf.next_index;
  match_index = fill_from rf.peers 0 none rf.match_index;
}
