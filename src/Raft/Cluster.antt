-- ===== src/Raft/Cluster.antt =====
-- The peers of src/raft/raft.go together, for elections. A step is one hold of one peer's lock:
-- the sections of `SendRequestVote` of all elections interleave with each other and with every
-- other step. A call of the network is handled at most once, and a reply comes back at most once;
-- a call or a reply that is never handled is lost.
pub mod Quorum
pub mod Keeps
pub mod Fair
pub mod Electing
pub mod Answering
pub mod Counting
pub mod Safety
use spring.Common.{
  ℕ, zero, suc, ◌+◌, Bool, true, false, not, ◌&&◌, List, [], ◌∷◌, ◌++◌, Option, none, some, ◌==◌,
  if◌then◌else◌, get_elem?, set, ◌>>=◌,
}
use spring.Raft.Types.{Raft, Gob, RequestVoteArgs, RequestVoteReply}
use spring.Raft.Vote.{request_vote_handler, election_tick, vote_stale, add_vote, wins}
use spring.Raft.Node.{
  Event, vote_request, election, majority, crash, step, Node, note, granted, own_vote, newborn,
  Ballot,
}
use spring.Raft.Cluster.Quorum.{take_out}

-- What `ElectLauncher` has started: the request, the shared counter of votes, the peers that have
-- not handled the request, the replies on their way, and the voters whose replies have passed
-- section 1 of `SendRequestVote`. The voters counted so far are kept for the proofs alone.
pub record Election : Type 0 where
  pub args : RequestVoteArgs
  pub vote : ℕ
  pub asked : List ℕ
  pub replies : List (ℕ × RequestVoteReply)
  pub passed : List ℕ
  pub counted : List ℕ

-- The peers by their index, the elections, and each election won: its term and its candidate.
pub record Cluster : Type 0 where
  pub nodes : List Node
  pub elections : List Election
  pub winners : List Ballot

pub data Move : Type 0 where
  runs : (i : ℕ) → Event → Move
  elects : (i now ms : ℕ) → Move
  asks : (k to now : ℕ) → Move
  answers : (k to : ℕ) → Move
  counts : (k to : ℕ) → Move
  crashes : (i : ℕ) → Move

-- The events that the moves below do not stand for. Their messages are any, so they include those
-- of leaders, and the last section of `SendRequestVote`.
abbrev pub is_own : Event → Bool
is_own (election now ms) = false
is_own (majority vote) = false
is_own crash = false
is_own _ = true

-- The reply of a voter, and the replies without it.
unfoldable pub take_reply :
    ℕ → List (ℕ × RequestVoteReply) → Option (RequestVoteReply × List (ℕ × RequestVoteReply))
take_reply to [] = none
take_reply to ((v, r) ∷ rs) = elim (v == to) [
  | true ↦ some (r, rs)
  | false ↦ elim (take_reply to rs) [ none ↦ none | some (q, rest) ↦ some (q, (v, r) ∷ rest) ]
]

abbrev pub vote_of : ℕ → RequestVoteArgs → Bool → List ℕ → List ℕ
vote_of to args ok passed = if ok then to ∷ passed else passed

-- The elections of a peer end with it.
unfoldable pub without : ℕ → List Election → List Election
without i [] = []
without i (e ∷ es) = let rest = without i es in if e.args.candidate_id == i then rest else e ∷ rest

abbrev pub opened : Option (RequestVoteArgs × List ℕ) → List Election → List Election
opened none es = es
opened (some (args, to)) es =
    record { args = args; vote = 1; asked = to; replies = []; passed = []; counted = [] } ∷ es

module _ (g : Gob) where
  unfoldable pub run_node : ℕ → Event → List Node → Option (List Node)
  unfolding step
  run_node i e ns = do
    n ← get_elem? ns i
    (rf, vote) ← step g e n.peer
    some (set ns i (record { peer = rf; cast = note vote n.cast }))

  -- `ElectionGoroutine` and `ElectLauncher`.
  unfoldable pub elect : ℕ → ℕ → ℕ → Cluster → Option Cluster
  elect i now ms c = do
    n ← get_elem? c.nodes i
    (rf, sent) ← election_tick g now ms n.peer
    some (record c {
      nodes = set c.nodes i (record { peer = rf; cast = note (own_vote sent) n.cast });
      elections = opened sent c.elections;
    })

  -- `RequestVoteHandler` at a peer that has not handled the request yet.
  unfoldable pub ask : ℕ → ℕ → ℕ → Cluster → Option Cluster
  ask k to now c = do
    e ← get_elem? c.elections k
    left ← take_out to e.asked
    n ← get_elem? c.nodes to
    (rf, reply) ← request_vote_handler g now e.args n.peer
    some (record c {
      nodes =
          set c.nodes to
            (record { peer = rf; cast = note (granted e.args reply.vote_granted) n.cast });
      elections = set c.elections k (record e { asked = left; replies = (to, reply) ∷ e.replies });
    })

  -- Section 1 of `SendRequestVote` at the candidate.
  unfoldable pub answer : ℕ → ℕ → Cluster → Option Cluster
  answer k to c = do
    e ← get_elem? c.elections k
    (reply, rest) ← take_reply to e.replies
    n ← get_elem? c.nodes e.args.candidate_id
    let (rf, stale) = vote_stale e.args n.peer
    some (record c {
      nodes = set c.nodes e.args.candidate_id (record n { peer = rf });
      elections = set c.elections k (record e {
        replies = rest;
        passed = vote_of to e.args (not stale && reply.vote_granted) e.passed;
      });
    })

  -- Section 2: the vote is counted, without the lock, and may win, under the lock. The two are one
  -- move here, between which no other comes.
  unfoldable pub count : ℕ → ℕ → Cluster → Option Cluster
  unfolding run_node
  count k to c = do
    e ← get_elem? c.elections k
    left ← take_out to e.passed
    n ← get_elem? c.nodes e.args.candidate_id
    ns ← run_node e.args.candidate_id (majority e.vote) c.nodes
    some (record {
      nodes = ns;
      elections =
          set c.elections k
            (record e { vote = add_vote e.vote; passed = left; counted = to ∷ e.counted });
      winners =
          if wins (add_vote e.vote) n.peer
          then (e.args.term, e.args.candidate_id) ∷ c.winners
          else c.winners;
    })

  unfoldable pub cluster_step : Move → Cluster → Option Cluster
  unfolding run_node elect ask answer count
  cluster_step (runs i e) c =
      if is_own e then (do ns ← run_node i e c.nodes; some (record c { nodes = ns })) else none
  cluster_step (elects i now ms) c = elect i now ms c
  cluster_step (asks k to now) c = ask k to now c
  cluster_step (answers k to) c = answer k to c
  cluster_step (counts k to) c = count k to c
  cluster_step (crashes i) c = do
    ns ← run_node i crash c.nodes
    some (record c { nodes = ns; elections = without i c.elections })

  unfoldable pub cluster_run : List Move → Cluster → Option Cluster
  unfolding cluster_step
  cluster_run [] c = some c
  cluster_run (m ∷ ms) c = do c' ← cluster_step m c; cluster_run ms c'

  abbrev pub newborns : ℕ → ℕ → ℕ → List Node
  newborns n i zero = []
  newborns n i (suc k) = newborn g n i ∷ newborns n (i + 1) k

  -- `n` peers that start with empty persisters.
  abbrev pub founded : ℕ → Cluster
  founded n = record { nodes = newborns n 0 n; elections = []; winners = [] }
