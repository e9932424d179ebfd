-- ===== src/Raft/Tests/Elections.antt =====
-- Elections of three peers of src/raft/raft.go, and the theorems at them.
use spring.Common.{
  ℕ, Bool, true, false, List, [], ◌∷◌, ◌++◌, Option, none, some, ◌≡◌, refl, arith, get_elem?, inr,
  inl,
}
use spring.Raft.Index.{is_leader, last_entry}
use spring.Raft.Types.{AppendEntriesArgs}
use spring.Raft.Node.{entries, Node, newborn}
use spring.Raft.Node.OneVote.{Voted}
use spring.Raft.Cluster.{
  Cluster, Election, Move, runs, elects, asks, answers, counts, crashes, cluster_run, founded,
  take_reply, without,
}
use spring.Raft.Cluster.Safety.{election_safety}
use spring.Raft.Tests.{plain_gob, plain_encode, plain_decode}
use spring.Raft.Vote.{request_vote_handler, election_tick, vote_stale, wins, become_leader}
use spring.Raft.Append.{heartbeat_handler, check_entry, accept}
use spring.Raft.Cluster.Quorum.{take_out}
use spring.Raft.Persist.{persist, make}

abbrev note_of_leader : AppendEntriesArgs
note_of_leader = record {
  term = 2;
  leader_id = 1;
  prev_log_index = 0;
  prev_log_term = 0;
  entries = [];
  leader_commit = 0;
}

-- Peer 0 has the vote of peer 1 in term 1, not counted yet; peer 1 then wins term 2 with the vote
-- of peer 2, and its heartbeat takes peer 0 to term 2.
abbrev story : List Move
story =
    elects 0 1000 400
    ∷ asks 0 1 1001
    ∷ answers 0 1
    ∷ elects 1 2000 400
    ∷ asks 0 2 2001
    ∷ answers 0 2
    ∷ counts 0 2
    ∷ runs 0 (entries 2002 note_of_leader)
    ∷ []

abbrev or_founded : Option Cluster → Cluster
or_founded none = founded plain_gob 3
or_founded (some c) = c

abbrev late : Cluster
late = or_founded (cluster_run plain_gob story (founded plain_gob 3))

-- The late count makes peer 0 a leader of term 2 as well.
abbrev whole : Cluster
whole = or_founded (cluster_run plain_gob (story ++ (counts 1 1 ∷ [])) (founded plain_gob 3))

abbrev leads_in : List Node → List (Bool × ℕ)
leads_in [] = []
leads_in (n ∷ ns) = (is_leader n.peer.state, n.peer.current_term) ∷ leads_in ns

two_leaders : leads_in whole.nodes ≡ (true, 2) ∷ (true, 2) ∷ (false, 2) ∷ []
unfolding cluster_run request_vote_handler persist make last_entry plain_encode plain_decode
    election_tick take_out take_reply vote_stale heartbeat_handler check_entry wins accept
    become_leader
two_leaders = refl

abbrev fair : List Move
fair =
    elects 0 1000 400
    ∷ asks 0 1 1001
    ∷ answers 0 1
    ∷ counts 0 1
    ∷ elects 1 2000 400
    ∷ asks 0 2 2001
    ∷ answers 0 2
    ∷ crashes 0
    ∷ counts 0 2
    ∷ []

abbrev over : Cluster
over = or_founded (cluster_run plain_gob fair (founded plain_gob 3))

over_runs : cluster_run plain_gob fair (founded plain_gob 3) ≡ some over
unfolding cluster_run request_vote_handler persist make last_entry plain_encode plain_decode
    election_tick take_out take_reply vote_stale without
over_runs = refl

won_once : over.winners ≡ (2, 1) ∷ (1, 0) ∷ []
unfolding cluster_run request_vote_handler persist make last_entry plain_encode plain_decode
    election_tick take_out take_reply vote_stale without wins
won_once = refl

first_won : Voted 1 0 over.winners
unfolding over cluster_run request_vote_handler persist make last_entry plain_encode plain_decode
    election_tick take_out take_reply vote_stale without wins
first_won = inr (inl (refl, refl))

election_safety_example : ◌≡◌ {A = ℕ} 0 0
election_safety_example =
    election_safety plain_gob 3 fair (omega arith) over_runs 1 0 0 first_won first_won

abbrev late_election : Election
late_election = record {
  args = record { term = 1; candidate_id = 0; last_log_index = 0; last_log_term = 0 };
  vote = 1;
  asked = 2 ∷ [];
  replies = [];
  passed = 1 ∷ [];
  counted = [];
}

abbrev or_empty_node : Option Node → Node
or_empty_node none = newborn plain_gob 3 0
or_empty_node (some n) = n

abbrev late_node : Node
late_node = or_empty_node (get_elem? late.nodes 0)
