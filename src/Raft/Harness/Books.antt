-- ===== src/Raft/Harness/Books.antt =====
-- What the harness src/raft/config.go writes down of the commands that servers deliver, and its
-- checks of them. `none` is `log.Fatalf` or a panic.
use spring.Common.{
  ℕ, zero, suc, ◌+◌, Bool, true, false, not, ◌&&◌, ◌||◌, List, [], ◌∷◌, Option, none, some, ltb,
  leb, ◌==◌, if◌then◌else◌, get_elem?, set, insert, empty, replicate, ◌>>=◌,
}
use spring.Raft.Types.{ApplyMsg, command_msg, snapshot_msg, Command}

-- The commands that a server has delivered, by their index.
abbrev pub Delivered : Type 0
Delivered = ℕ → Option Command

pub record Books : Type 0 where
  pub logs : List Delivered
  pub max_index : ℕ

abbrev pub fresh_books : ℕ → Books
fresh_books n = record { logs = replicate n empty; max_index = 0 }

abbrev pub differs : Command → Option Command → Bool
differs v none = false
differs v (some old) = not (old == v)

-- Some server has delivered another command at this index.
unfoldable pub any_differs : ℕ → Command → List Delivered → Bool
any_differs idx v [] = false
any_differs idx v (l ∷ ls) = differs v (l idx) || any_differs idx v ls

abbrev pub is_some : Option Command → Bool
is_some none = false
is_some (some c) = true

-- `_, prevok := cfg.logs[i][m.CommandIndex-1]`
abbrev pub prev_ok : ℕ → Delivered → Bool
prev_ok zero l = false
prev_ok (suc k) l = is_some (l k)

-- `checkLogs`: whether there is an error, `prevok`, and the books with the new command.
unfoldable pub check_logs : ℕ → ℕ → Command → Books → Option (Bool × Bool × Books)
unfolding any_differs
check_logs i idx v b = do
  l ← get_elem? b.logs i
  some (
    any_differs idx v b.logs,
    prev_ok idx l,
    record {
      logs = set b.logs i (insert (λ a c. a == c) idx v l);
      max_index = if ltb b.max_index idx then idx else b.max_index;
    },
  )

-- One turn of `applier` for server `i`.
unfoldable pub applier : ℕ → ApplyMsg → Books → Option Books
unfolding check_logs
applier i (snapshot_msg data' term index) b = some b
applier i (command_msg v idx) b = do
  (err, prev, b') ← check_logs i idx v b
  if err || (ltb 1 idx && not prev) then none else some b'

-- The turns of the appliers of all servers, in any order.
unfoldable pub appliers : List (ℕ × ApplyMsg) → Books → Option Books
unfolding applier
appliers [] b = some b
appliers ((i, m) ∷ ms) b = do b' ← applier i m b; appliers ms b'

abbrev pub is_command : Command → Option Command → Bool
is_command c none = false
is_command c (some v) = v == c

-- The loop of `nCommitted`, with the count and the command so far.
unfoldable pub n_committed : ℕ → List Delivered → ℕ → Option Command → Option (ℕ × Option Command)
n_committed idx [] count cmd = some (count, cmd)
n_committed idx (l ∷ ls) count cmd = elim (l idx) [
  | none ↦ n_committed idx ls count cmd
  | some c ↦
      let rest = n_committed idx ls (count + 1) (some c) in
      if ltb 0 count && not (is_command c cmd) then none else rest
]

-- The result of `wait`; `moved_on` is its -1.
pub data Waited : Type 0 where
  failed : Waited
  moved_on : Waited
  decided : Option Command → Waited

-- What `wait` sees in one round: the books and the terms of the servers.
pub record Moment : Type 0 where
  pub books : List Delivered
  pub terms : List ℕ

abbrev pub any_later : ℕ → List ℕ → Bool
any_later term [] = false
any_later term (t ∷ ts) = ltb term t || any_later term ts

-- `startTerm > -1`, and some server is past it.
abbrev pub is_past : Option ℕ → List ℕ → Bool
is_past none terms = false
is_past (some term) terms = any_later term terms

abbrev pub last_count : ℕ → Option (ℕ × Option Command) → Waited
last_count n none = failed
last_count n (some (nd, cmd)) = if ltb nd n then failed else decided cmd

-- `wait`, with what it sees in each of its rounds and at its end.
unfoldable pub wait : ℕ → ℕ → Option ℕ → List Moment → List Delivered → Waited
unfolding n_committed
wait idx n term [] books = last_count n (n_committed idx books 0 none)
wait idx n term (m ∷ ms) books =
    let rest = wait idx n term ms books in
    elim (n_committed idx m.books 0 none) [
      | none ↦ failed
      | some (nd, cmd) ↦
          if leb n nd
          then last_count n (n_committed idx books 0 none)
          else if is_past term m.terms
          then moved_on
          else rest
    ]
