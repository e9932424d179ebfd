-- ===== src/Raft/Tests.antt =====
-- Runs of the peer of src/raft/raft.go on small inputs, and the theorems at them.
mod Logs
mod Leading
mod Elections
mod Matching
mod Harness
mod Rig
use spring.Common.{
  ℕ, zero, suc, ◌+◌, ◌<◌, ◌≤◌, ◌≡◌, ◌≢◌, ◌↔◌, ◌⊎◌, inl, inr, refl, ap, Option, none, some, List, [],
  ◌∷◌, length, arith, Bool, true, false, get_elem?, replicate, ltb, if◌then◌else◌, ◌%◌, ◌^◌, ◌/◌,
  ◌==◌, ◌&&◌,
}
use spring.Raft.Types.{
  Raft, Gob, Log, Bytes, Persistent, RequestVoteArgs, RequestVoteReply, AppendEntriesArgs,
  AppendEntriesReply, SnapshotArgs, State, leader, follower, snapshot_msg, ApplyMsg, command_msg,
}
use spring.Raft.Index.{entry_at, last_entry, max_int, is_leader}
use spring.Raft.Persist.{boot, make, make_persister, persist}
use spring.Raft.Vote.{request_vote_handler, become_leader, vote_stale, election_tick}
use spring.Raft.Append.{
  Outcome, heartbeat_handler, blank_reply, check_entry, conflict, accept, is_nil,
}
use spring.Raft.Leader.{
  Slot, slot, message, append_entries, send_request_vote, start, advance_commit, Handled,
  commit_scan, count_from, replicated, backup,
}
use spring.Raft.Snapshot.{snapshot, install_snapshot}
use spring.Raft.Apply.{apply_all}
use spring.Raft.Valid.{IsValid}
use spring.Raft.Node.{Event, vote_request, election, crash, run, step, newborn, Node, restart}
use spring.Raft.Node.Recovery.{run-IsValid, crash_recovers}

-- A codec of numbers, which shows that the laws of `Gob` can be met.
pub encode_log : List Log → List ℕ
encode_log [] = []
encode_log (e ∷ es) = e.log_term ∷ e.command ∷ encode_log es

pub decode_log : List ℕ → List Log
decode_log [] = []
decode_log (t ∷ []) = []
decode_log (t ∷ c ∷ r) = record { log_term = t; command = c } ∷ decode_log r

decode_log-encode_log : (es : List Log) → decode_log (encode_log es) ≡ es
unfolding encode_log decode_log
decode_log-encode_log [] = refl
decode_log-encode_log (e ∷ es) = ap (λ l. e ∷ l) (decode_log-encode_log es)

encode_vote : Option ℕ → ℕ
encode_vote none = 0
encode_vote (some v) = suc v

decode_vote : ℕ → Option ℕ
decode_vote zero = none
decode_vote (suc v) = some v

pub plain_encode : Persistent → Bytes
unfolding encode_log encode_vote
plain_encode p =
    p.current_term
    ∷ encode_vote p.voted_for
    ∷ p.last_included_index
    ∷ p.last_included_term
    ∷ encode_log p.log

pub plain_decode : Bytes → Option Persistent
unfolding decode_log decode_vote
plain_decode (term ∷ vote ∷ index ∷ last ∷ log) = some (record {
  current_term = term;
  voted_for = decode_vote vote;
  log = decode_log log;
  last_included_index = index;
  last_included_term = last;
})
plain_decode _ = none

decode_vote-encode_vote : (v : Option ℕ) → decode_vote (encode_vote v) ≡ v
unfolding encode_vote decode_vote
decode_vote-encode_vote none = refl
decode_vote-encode_vote (some v) = refl

pub plain_decode-encode : (p : Persistent) → plain_decode (plain_encode p) ≡ some p
unfolding plain_encode plain_decode
plain_decode-encode p = rw (decode_log-encode_log p.log, decode_vote-encode_vote p.voted_for)

pub plain_encode-pos : (p : Persistent) → 0 < length (plain_encode p)
unfolding plain_encode
plain_encode-pos p = omega arith

abbrev pub plain_gob : Gob
plain_gob = record {
  encode = plain_encode;
  decode = plain_decode;
  decode-encode = plain_decode-encode;
  encode-pos = plain_encode-pos;
}

-- A request of peer `c` in a term, by a log of the boot entry alone.
abbrev pub ask : ℕ → ℕ → RequestVoteArgs
ask term c = record { term = term; candidate_id = c; last_log_index = 0; last_log_term = 0 }

-- Peer 0 votes for peer 1, crashes, refuses peer 2 in the same term, and stands itself.
abbrev life : List Event
life = vote_request 5 (ask 1 1) ∷ crash ∷ vote_request 6 (ask 1 2) ∷ election 900 400 ∷ []

abbrev or_new : Option Node → Node
or_new none = newborn plain_gob 3 0
or_new (some n) = n

abbrev lived : Node
lived = or_new (run plain_gob life (newborn plain_gob 3 0))

life_runs : run plain_gob life (newborn plain_gob 3 0) ≡ some lived
unfolding run step request_vote_handler persist make last_entry plain_encode plain_decode
    election_tick
life_runs = refl

life_votes : lived.cast ≡ (2, 0) ∷ (1, 1) ∷ []
unfolding run step request_vote_handler persist make last_entry plain_encode plain_decode
    election_tick
life_votes = refl

run-IsValid_example : IsValid lived.peer
run-IsValid_example = run-IsValid plain_gob 3 0 life life_runs

crash_recovers_example :
    let lost = restart plain_gob lived.peer in
    (lost.log ≡ lived.peer.log)
    × (lost.log_length ≡ lived.peer.log_length)
    × (lost.last_included_index ≡ lived.peer.last_included_index)
    × (lost.last_included_term ≡ lived.peer.last_included_term)
    × (lost.snapshot_data ≡ lived.peer.snapshot_data)
    × ((lost.current_term < lived.peer.current_term)
        ⊎ ((lost.current_term ≡ lived.peer.current_term)
            × ((lost.voted_for ≡ none) ⊎ (lost.voted_for ≡ lived.peer.voted_for))))
crash_recovers_example = crash_recovers plain_gob 3 0 life life_runs
