-- ===== src/Raft/Tests/Leading.antt =====
-- Votes, and a leader of src/raft/raft.go, at small inputs.
use spring.Common.{
  ℕ, zero, suc, ◌<◌, ◌≤◌, ◌≡◌, ◌↔◌, refl, Option, none, some, List, [], ◌∷◌, arith, true, false,
  get_elem?,
}
use spring.Raft.Types.{Raft, Log, RequestVoteReply, ApplyMsg, leader, follower}
use spring.Raft.Index.{entry_at, max_int, last_entry}
use spring.Raft.Persist.{boot, make_persister, persist}
use spring.Raft.Vote.{request_vote_handler, fill_from}
use spring.Raft.Append.{Outcome, heartbeat_handler, check_entry, conflict}
use spring.Raft.Leader.{Slot, send_request_vote, Handled, commit_scan, send_heartbeat}
use spring.Raft.Apply.{apply_all}
use spring.Raft.Backup.{refused_backs_up, TermsGrow}
use spring.Raft.Commit.{commit_scan_panics}
use spring.Raft.Elect.{vote_granted_iff, MayVote, refusal_unsaved}
use spring.Raft.Delivery.{apply_all_lem, Delivers}
use spring.Raft.Tests.{plain_gob, ask}
use spring.Raft.Tests.Logs.{entry, behind, update, or_blank}

-- The leader that sends `update 1 1` to peer 1.
abbrev ahead : Raft
ahead = record (boot 3 0 make_persister) {
  current_term = 3;
  commit_index = 2;
  voted_for = some 0;
  state = leader;
  log = entry 0 0 ∷ entry 1 10 ∷ entry 2 12 ∷ entry 3 13 ∷ [];
  log_length = 4;
  next_index = 4 ∷ 2 ∷ 4 ∷ [];
  match_index = none ∷ some 3 ∷ none ∷ [];
}

abbrev ahead_slot : Slot
ahead_slot = record {
  prev_log_index = 1;
  prev_log_term = some 1;
  entries = entry 2 12 ∷ entry 3 13 ∷ [];
}

-- A leader that has restarted from a snapshot at index 6.
abbrev restarted : Raft
restarted = record ahead {
  commit_index = 0;
  last_included_index = 6;
  log_length = 10;
  match_index = none ∷ some 7 ∷ none ∷ [];
}

commit_scan_panics_example : commit_scan restarted 5 ≡ none
commit_scan_panics_example =
    commit_scan_panics restarted 4 1 7 (omega arith) (omega arith) refl (omega arith) (omega arith)

vote_granted_iff_example :
    (last : Log) × (out : Raft × RequestVoteReply) × (last_entry behind ≡ some last)
    × (request_vote_handler plain_gob 7 (ask 3 2) behind ≡ some out)
    × (out.1.term ≡ 2)
    × ((out.1.vote_granted ≡ true) ↔ MayVote (ask 3 2) behind last)
vote_granted_iff_example = vote_granted_iff plain_gob 7 (ask 3 2) behind (ground arith)

abbrev or_old : Option (Raft × RequestVoteReply) → Raft × RequestVoteReply
or_old none = (behind, record { term = 0; vote_granted = true })
or_old (some out) = out

abbrev asked : Raft × RequestVoteReply
asked = or_old (request_vote_handler plain_gob 7 (ask 3 2) behind)

asked_runs : request_vote_handler plain_gob 7 (ask 3 2) behind ≡ some asked
unfolding request_vote_handler last_entry
asked_runs = refl

asked_refused : asked.1.vote_granted ≡ false
unfolding request_vote_handler last_entry
asked_refused = refl

refusal_unsaved_example :
    (asked.0.persister ≡ behind.persister) × (asked.0.current_term ≡ max_int 2 3)
refusal_unsaved_example = refusal_unsaved plain_gob 7 (ask 3 2) behind asked_runs asked_refused

abbrev standing : Raft
standing = record ahead { state = follower }

abbrev won : Raft × ℕ × List (ℕ × Slot)
won =
    or_lost (
      send_request_vote plain_gob 8 (ask 3 0) (record { term = 2; vote_granted = true }) 1 standing)
  where
    or_lost : Option (Raft × ℕ × List (ℕ × Slot)) → Raft × ℕ × List (ℕ × Slot)
    or_lost none = (standing, 0, [])
    or_lost (some out) = out

won_runs :
    send_request_vote plain_gob 8 (ask 3 0) (record { term = 2; vote_granted = true }) 1 standing
    ≡ some won
unfolding send_request_vote persist fill_from
won_runs = refl

won_leads : won.0.state ≡ leader
unfolding send_request_vote fill_from
won_leads = refl

apply_all_lem_example :
    (rf : Raft) × (msgs : List ApplyMsg) × (apply_all 3 ahead ≡ some (rf, msgs))
    × Delivers ahead rf msgs
apply_all_lem_example =
    apply_all_lem 3 ahead (ground arith) refl (omega arith) (omega arith) (omega arith)

abbrev AtLeast : ℕ → List Log → Type 0
AtLeast n [] = Unit
AtLeast n (e ∷ es) = (n ≤ e.log_term) × AtLeast n es

abbrev Grows : List Log → Type 0
Grows [] = Unit
Grows (e ∷ es) = AtLeast e.log_term es × Grows es

AtLeast-get :
    (n : ℕ) (es : List Log) (j : ℕ) (b : Log)
    → AtLeast n es
    → get_elem? es j ≡ some b
    → n ≤ b.log_term
AtLeast-get n [] j b h p = absurd (cc p)
AtLeast-get n (e ∷ es) zero b h p = ground arith
AtLeast-get n (e ∷ es) (suc j) b h p = AtLeast-get n es j b h.1 p

Grows-TermsGrow : (es : List Log) → Grows es → TermsGrow es
Grows-TermsGrow [] g i j a b le p q = absurd (cc p)
Grows-TermsGrow (e ∷ es) g zero zero a b le p q = ground arith
Grows-TermsGrow (e ∷ es) g zero (suc j) a b le p q =
    ground (arith, AtLeast-get e.log_term es j b g.0 q)
Grows-TermsGrow (e ∷ es) g (suc i) zero a b le p q = absurd (omega arith)
Grows-TermsGrow (e ∷ es) g (suc i) (suc j) a b le p q =
    Grows-TermsGrow es g.1 i j a b (omega arith) p q

abbrev turned : Outcome
turned = or_blank (heartbeat_handler plain_gob 7 (update 2 2) behind)

turned_runs : heartbeat_handler plain_gob 7 (update 2 2) behind ≡ some turned
unfolding heartbeat_handler check_entry conflict persist
turned_runs = refl

turned_refused : turned.reply.success ≡ false
unfolding heartbeat_handler check_entry conflict persist
turned_refused = refl

behind_older : (e : Log) → entry_at behind 2 ≡ some e → e.log_term ≤ 2
unfolding entry_at
behind_older e h = ground arith

-- The leader before it has backed up for peer 1.
abbrev asking : Raft
asking = record ahead { next_index = 4 ∷ 3 ∷ 4 ∷ [] }

refused_backs_up_example :
    (h : Handled) × (next : ℕ) × (send_heartbeat plain_gob 1 (update 2 2) turned.reply asking
      ≡ some h)
    × (get_elem? h.peer.next_index 1 ≡ some next)
    × (next < 3)
refused_backs_up_example =
    refused_backs_up plain_gob 7 (update 2 2) asking behind (entry 2 12) (ground arith)
      (Grows-TermsGrow ahead.log (omega arith)) (omega arith) (unfold entry_at in refl) refl
      behind_older (omega arith) turned_runs turned_refused 1 refl refl
