-- ===== src/Raft/Logs/Matching.antt =====
-- Log matching in src/raft/raft.go.
use spring.Common.{
  ◌++◌, ℕ, suc, ◌^◌, ◌<◌, ◌≡◌, some, List, true, ap, sym, ◌∙◌, subst, get_elem?, take,
}
use spring.Raft.Types.{Gob, Log}
use spring.Raft.Index.{is_leader}
use spring.Raft.Node.{Node}
use spring.Raft.Node.OneVote.{Voted}
use spring.Raft.Logs.{Traffic, Act, take_acts, are_prompt, no_traffic}
use spring.Raft.Logs.Sound.{IsLed-agree}
use spring.Raft.Logs.Runs.{start_led, no_traffic-IsMatched, take_acts-IsMatched}
use spring.Raft.Logs.Matched.{won_once}

module _ (g : Gob) (size : ℕ) (small : size < 2 ^ 32) where
  -- Among fewer than 2^32 peers that start with empty persisters and never take a snapshot, in any
  -- interleaving of elections, commands, crashes and restarts, in which messages of leaders are
  -- lost, come late, out of order or more than once, and every vote is counted while the candidate
  -- is still in the term of its election: where the logs of two peers hold entries of the same
  -- term at the same index, the two logs are the same up to that index.
  pub log_matching :
      (as' : List Act) {s : Traffic}
      → are_prompt g as' (no_traffic g size) ≡ true
      → take_acts g as' (no_traffic g size) ≡ some s
      → (i j k : ℕ) (a b : Node) (x y : Log) → get_elem? s.cluster.nodes i ≡ some a
      → get_elem? s.cluster.nodes j ≡ some b
      → get_elem? a.peer.log k ≡ some x
      → get_elem? b.peer.log k ≡ some y
      → x.log_term ≡ y.log_term
      → take (suc k) a.peer.log ≡ take (suc k) b.peer.log
  log_matching as' {s} prompt h i j k a b x y ai bj xa yb same =
      let n =
        take_acts-IsMatched g size small as' (no_traffic g size) start_led
          (no_traffic-IsMatched g size) prompt h in
      let m = n.matched in
      IsLed-agree s.cluster.winners n.led' k a.peer.log b.peer.log x y (m.members i a ai).logged
        (m.members j b bj).logged xa yb same

  -- Among fewer than 2^32 peers that start with empty persisters and never take a snapshot, in any
  -- interleaving of elections, commands, crashes, restarts and messages of leaders in which every
  -- vote is counted while the candidate is still in the term of its election: a peer that leads at
  -- some time and is in the same term at a later time, with crashes and restarts between, has kept
  -- every entry of its log in place. The later log is the earlier one with entries behind it.
  pub leader_appends :
      (as' bs : List Act) {s s' : Traffic}
      → are_prompt g as' (no_traffic g size) ≡ true
      → are_prompt g bs s ≡ true
      → take_acts g as' (no_traffic g size) ≡ some s
      → take_acts g bs s ≡ some s'
      → (i : ℕ) (a b : Node) → get_elem? s.cluster.nodes i ≡ some a
      → get_elem? s'.cluster.nodes i ≡ some b
      → is_leader a.peer.state ≡ true
      → a.peer.current_term ≡ b.peer.current_term
      → (es : List Log) × (b.peer.log ≡ a.peer.log ++ es)
  leader_appends as' bs {s} {s'} p q h k i a b ai bi la same =
      let n =
        take_acts-IsMatched g size small as' (no_traffic g size) start_led
          (no_traffic-IsMatched g size) p h in
      let n' = take_acts-IsMatched g size small bs s n.led' n.matched q k in
      let before = n.matched.members i a ai in
      let later = n'.matched.members i b bi in
      let t = a.peer.current_term in
      let won = before.leads la in
      let (es, longer) = n'.longer t i won in
      (
        es,
        later.own (subst (λ u. Voted u i s'.cluster.winners) same (n'.won t i won))
            ∙ ap n'.led' (sym same)
            ∙ longer
            ∙ ap (λ l. l ++ es) (sym (before.own won)),
      )

  -- In such runs no two peers lead the same term at the same time.
  pub leaders_once :
      (as' : List Act) {s : Traffic}
      → are_prompt g as' (no_traffic g size) ≡ true
      → take_acts g as' (no_traffic g size) ≡ some s
      → (i j : ℕ) (a b : Node) → get_elem? s.cluster.nodes i ≡ some a
      → get_elem? s.cluster.nodes j ≡ some b
      → is_leader a.peer.state ≡ true
      → is_leader b.peer.state ≡ true
      → a.peer.current_term ≡ b.peer.current_term
      → i ≡ j
  leaders_once as' {s} p h i j a b ai bj la lb same =
      let n =
        take_acts-IsMatched g size small as' (no_traffic g size) start_led
          (no_traffic-IsMatched g size) p h in
      let won_a = (n.matched.members i a ai).leads la in
      let won_b = (n.matched.members j b bj).leads lb in
      won_once g size s n.led' n.matched b.peer.current_term i j
        (subst (λ u. Voted u i s.cluster.winners) same won_a) won_b
