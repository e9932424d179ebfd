-- ===== src/Raft/Tests/Harness.antt =====
-- The checks of src/raft/config.go at small runs, and the theorems at them.
use spring.Common.{
  ℕ, true, false, List, [], ◌∷◌, Option, none, some, ◌≡◌, ◌≢◌, refl, arith, get_elem?,
}
use spring.Raft.Types.{ApplyMsg, command_msg}
use spring.Raft.Harness.{Seen, passed, check_one_leader}
use spring.Raft.Harness.Leaders.{leading}
use spring.Raft.Harness.Elected.{AtMostOne, IsLatest, check_one_leader_lem}
use spring.Raft.Harness.Looks.{Glance, rounds_of, AllLooks, leaders_pass}
use spring.Raft.Harness.Books.{Books, fresh_books, appliers, decided, wait}
use spring.Raft.Harness.Applied.{Agree, NoGaps}
use spring.Raft.Harness.Counted.{IsCount}
use spring.Raft.Harness.Committed.{appliers_lem}
use spring.Raft.Tests.{plain_gob, plain_encode, plain_decode}
use spring.Raft.Tests.Matching.{half, start_of, half_runs, half_prompt}
use spring.Raft.Vote.{
  request_vote_handler, election_tick, vote_stale, wins, become_leader, fill_from,
}
use spring.Raft.Leader.{start, slot}
use spring.Raft.Cluster.{cluster_run, take_reply, runs}
use spring.Raft.Cluster.Quorum.{take_out}
use spring.Raft.Index.{last_entry}
use spring.Raft.Append.{heartbeat_handler, check_entry, accept}
use spring.Raft.Persist.{persist, make}
use spring.Raft.Logs.{Traffic, take_acts, are_prompt, no_traffic, moves}
use spring.Raft.Node.{command}

abbrev or_half : Option Traffic → Traffic
or_half none = half
or_half (some s) = s

abbrev more : Traffic
more = or_half (take_acts plain_gob (moves (runs 0 (command 6)) ∷ []) half)

-- Nobody is connected at first; then everyone but peer 2, and a command comes between the glances.
abbrev looks : List (List Glance)
looks =
    ((false, start_of, half) ∷ (false, [], half) ∷ (false, [], half) ∷ [])
    ∷ ((true, [], half) ∷ (true, moves (runs 0 (command 6)) ∷ [], more) ∷ (false, [], more) ∷ [])
    ∷ []

abbrev rounds : List (List Seen)
rounds = rounds_of looks

rounds_pass : check_one_leader rounds ≡ passed 0
unfolding check_one_leader take_acts cluster_run request_vote_handler persist make last_entry
    plain_encode plain_decode election_tick take_out take_reply vote_stale heartbeat_handler
    check_entry wins accept become_leader start slot fill_from
rounds_pass = refl

check_one_leader_lem_example :
    (k : ℕ) × (ss : List Seen) × (get_elem? rounds k ≡ some ss) × IsLatest ss 0 × AtMostOne ss
check_one_leader_lem_example = check_one_leader_lem rounds 0 rounds_pass

abbrev second : List Seen
second = or_nothing (get_elem? rounds 1)
  where
    or_nothing : Option (List Seen) → List Seen
    or_nothing none = []
    or_nothing (some ss) = ss

somebody_leads : leading 1 0 second ≢ []
unfolding take_acts are_prompt cluster_run request_vote_handler persist make last_entry plain_encode
    plain_decode election_tick take_out take_reply vote_stale heartbeat_handler check_entry wins
    accept become_leader start slot fill_from
somebody_leads e = cc e

more_runs : take_acts plain_gob (moves (runs 0 (command 6)) ∷ []) half ≡ some more
unfolding take_acts are_prompt cluster_run request_vote_handler persist make last_entry plain_encode
    plain_decode election_tick take_out take_reply vote_stale heartbeat_handler check_entry wins
    accept become_leader start slot fill_from
more_runs = refl

more_prompt : are_prompt plain_gob (moves (runs 0 (command 6)) ∷ []) half ≡ true
unfolding take_acts are_prompt cluster_run request_vote_handler persist make last_entry plain_encode
    plain_decode election_tick take_out take_reply vote_stale heartbeat_handler check_entry wins
    accept become_leader start slot fill_from
more_prompt = refl

looks_run : AllLooks plain_gob (no_traffic plain_gob 3) looks
unfolding take_acts are_prompt
looks_run = (
  (half_prompt, half_runs, (refl, refl, (refl, refl, tt))),
  ((refl, refl, (more_prompt, more_runs, (refl, refl, tt))), tt),
)

leaders_pass_example : (i : ℕ) × (check_one_leader (rounds_of looks) ≡ passed i)
leaders_pass_example =
    leaders_pass plain_gob 3 (omega arith) looks 1 1 looks_run refl somebody_leads

abbrev messages : List (ℕ × ApplyMsg)
messages =
    (0, command_msg 5 1) ∷ (1, command_msg 5 1) ∷ (0, command_msg 6 2) ∷ (2, command_msg 5 1) ∷ []

abbrev or_fresh : Option Books → Books
or_fresh none = fresh_books 3
or_fresh (some b) = b

abbrev books : Books
books = or_fresh (appliers messages (fresh_books 3))

messages_pass : appliers messages (fresh_books 3) ≡ some books
unfolding appliers
messages_pass = refl

-- Another command at an index stops the test, and so does a gap.
other_stops : appliers ((0, command_msg 5 1) ∷ (1, command_msg 6 1) ∷ []) (fresh_books 3) ≡ none
unfolding appliers
other_stops = refl

gap_stops : appliers ((0, command_msg 5 1) ∷ (0, command_msg 6 3) ∷ []) (fresh_books 3) ≡ none
unfolding appliers
gap_stops = refl

two_wait : wait 1 3 none [] books.logs ≡ decided (some 5)
unfolding appliers wait
two_wait = refl

appliers_lem_example : Agree books.logs × NoGaps books.logs × ((idx : ℕ) → IsCount idx books.logs)
appliers_lem_example = appliers_lem 3 messages messages_pass
