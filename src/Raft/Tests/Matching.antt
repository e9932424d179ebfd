-- ===== src/Raft/Tests/Matching.antt =====
-- Entries of a leader among three peers of src/raft/raft.go, and the theorem on their logs at them.
use spring.Common.{
  ℕ, true, List, [], ◌∷◌, ◌++◌, Option, none, some, ◌≡◌, refl, arith, get_elem?, take,
}
use spring.Raft.Index.{last_entry}
use spring.Raft.Types.{Log}
use spring.Raft.Node.{Node, newborn, command}
use spring.Raft.Cluster.{cluster_run, runs, elects, asks, answers, counts, take_reply}
use spring.Raft.Cluster.Quorum.{take_out}
use spring.Raft.Logs.{Act, Traffic, moves, sends, delivers, take_acts, are_prompt, no_traffic}
use spring.Raft.Logs.Matching.{log_matching, leader_appends}
use spring.Raft.Tests.{plain_gob, plain_encode, plain_decode}
use spring.Raft.Vote.{
  request_vote_handler, election_tick, vote_stale, wins, become_leader, fill_from,
}
use spring.Raft.Leader.{start, slot}
use spring.Raft.Append.{heartbeat_handler, check_entry, accept}
use spring.Raft.Persist.{persist, make}

-- Peer 0 wins term 1, and sends one entry and then both; peer 1 gets the later message first.
abbrev pub start_of : List Act
start_of =
    moves (elects 0 1000 400)
    ∷ moves (asks 0 1 1001)
    ∷ moves (answers 0 1)
    ∷ moves (counts 0 1)
    ∷ moves (runs 0 (command 5))
    ∷ sends 0 1100
    ∷ []

abbrev rest_of : List Act
rest_of = moves (runs 0 (command 6)) ∷ sends 0 1200 ∷ delivers 0 1201 ∷ delivers 2 1202 ∷ []

abbrev story : List Act
story = start_of ++ rest_of

abbrev or_start : Option Traffic → Traffic
or_start none = no_traffic plain_gob 3
or_start (some s) = s

abbrev over : Traffic
over = or_start (take_acts plain_gob story (no_traffic plain_gob 3))

abbrev pub half : Traffic
half = or_start (take_acts plain_gob start_of (no_traffic plain_gob 3))

abbrev terms : List Log → List (ℕ × ℕ)
terms [] = []
terms (e ∷ es) = (e.log_term, e.command) ∷ terms es

abbrev logs : List Node → List (List (ℕ × ℕ))
logs [] = []
logs (n ∷ ns) = terms n.peer.log ∷ logs ns

three_logs :
    logs over.cluster.nodes
    ≡ ((0, 0) ∷ (1, 5) ∷ (1, 6) ∷ []) ∷ ((0, 0) ∷ (1, 5) ∷ []) ∷ ((0, 0) ∷ []) ∷ []
unfolding take_acts cluster_run request_vote_handler persist make last_entry plain_encode
    plain_decode election_tick take_out take_reply vote_stale heartbeat_handler check_entry wins
    accept become_leader start slot fill_from
three_logs = refl

over_runs : take_acts plain_gob story (no_traffic plain_gob 3) ≡ some over
unfolding take_acts cluster_run request_vote_handler persist make last_entry plain_encode
    plain_decode election_tick take_out take_reply vote_stale heartbeat_handler check_entry wins
    accept become_leader start slot fill_from
over_runs = refl

over_prompt : are_prompt plain_gob story (no_traffic plain_gob 3) ≡ true
unfolding are_prompt take_acts cluster_run request_vote_handler persist make last_entry plain_encode
    plain_decode election_tick take_out take_reply vote_stale heartbeat_handler check_entry wins
    accept become_leader start slot fill_from
over_prompt = refl

abbrev or_empty_node : Option Node → Node
or_empty_node none = newborn plain_gob 3 0
or_empty_node (some n) = n

abbrev sender : Node
sender = or_empty_node (get_elem? over.cluster.nodes 0)

abbrev receiver : Node
receiver = or_empty_node (get_elem? over.cluster.nodes 1)

abbrev first_entry : Log
first_entry = record { log_term = 1; command = 5 }

log_matching_example : take 2 sender.peer.log ≡ take 2 receiver.peer.log
unfolding take_acts cluster_run request_vote_handler persist make last_entry plain_encode
    plain_decode election_tick take_out take_reply vote_stale heartbeat_handler check_entry wins
    accept become_leader start slot fill_from
log_matching_example =
    log_matching plain_gob 3 (omega arith) story over_prompt over_runs 0 1 1 sender receiver
      first_entry first_entry refl refl refl refl refl

pub half_runs : take_acts plain_gob start_of (no_traffic plain_gob 3) ≡ some half
unfolding take_acts are_prompt cluster_run request_vote_handler persist make last_entry plain_encode
    plain_decode election_tick take_out take_reply vote_stale heartbeat_handler check_entry wins
    accept become_leader start slot fill_from
half_runs = refl

pub half_prompt : are_prompt plain_gob start_of (no_traffic plain_gob 3) ≡ true
unfolding take_acts are_prompt cluster_run request_vote_handler persist make last_entry plain_encode
    plain_decode election_tick take_out take_reply vote_stale heartbeat_handler check_entry wins
    accept become_leader start slot fill_from
half_prompt = refl

rest_runs : take_acts plain_gob rest_of half ≡ some over
unfolding take_acts are_prompt cluster_run request_vote_handler persist make last_entry plain_encode
    plain_decode election_tick take_out take_reply vote_stale heartbeat_handler check_entry wins
    accept become_leader start slot fill_from
rest_runs = refl

rest_prompt : are_prompt plain_gob rest_of half ≡ true
unfolding take_acts are_prompt cluster_run request_vote_handler persist make last_entry plain_encode
    plain_decode election_tick take_out take_reply vote_stale heartbeat_handler check_entry wins
    accept become_leader start slot fill_from
rest_prompt = refl

abbrev early_sender : Node
early_sender = or_empty_node (get_elem? half.cluster.nodes 0)

leader_appends_example : (es : List Log) × (sender.peer.log ≡ early_sender.peer.log ++ es)
unfolding take_acts are_prompt cluster_run request_vote_handler persist make last_entry plain_encode
    plain_decode election_tick take_out take_reply vote_stale heartbeat_handler check_entry wins
    accept become_leader start slot fill_from
leader_appends_example =
    leader_appends plain_gob 3 (omega arith) start_of rest_of half_prompt rest_prompt half_runs
      rest_runs 0 early_sender sender refl refl refl refl
