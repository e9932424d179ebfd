-- ===== src/Raft/Harness.antt =====
-- The checks of the test harness src/raft/config.go on the peers and on what they deliver. A check
-- that ends the test with `Fatalf` is `fatal`; the time between two looks at the peers is the
-- environment's, so each look is an argument.
pub mod Leaders
pub mod Elected
pub mod Terms
pub mod Looks
pub mod Books
pub mod Applied
pub mod Counted
pub mod Committed
pub mod Rig
pub mod Links
pub mod Wired
pub mod Started
pub mod Made
pub mod Running
use spring.Common.{
  ℕ, zero, suc, ◌+◌, Bool, true, false, not, ◌&&◌, List, [], ◌∷◌, ◌++◌, Option, none, some, ltb,
  ◌==◌, if◌then◌else◌, length, get_elem?,
}
use spring.Raft.Types.{Raft}
use spring.Raft.Index.{get_state}

-- A server as a check sees it: whether it is connected, and its peer.
abbrev pub Seen : Type 0
Seen = Bool × Raft

-- The map from a term to its leaders, in the order in which terms have come in.
abbrev pub Leaders : Type 0
Leaders = List (ℕ × List ℕ)

-- `leaders[term] = append(leaders[term], i)`
unfoldable pub add_leader : ℕ → ℕ → Leaders → Leaders
add_leader term i [] = (term, i ∷ []) ∷ []
add_leader term i ((t, ids) ∷ rest) =
    let more = add_leader term i rest in
    if t == term then (t, ids ++ (i ∷ [])) ∷ rest else (t, ids) ∷ more

abbrev pub is_connected_leader : Seen → Bool
is_connected_leader (connected, rf) = connected && (get_state rf).1

-- The loop over the servers from index `i` on.
unfoldable pub leaders_from : ℕ → List Seen → Leaders → Leaders
unfolding add_leader
leaders_from i [] ls = ls
leaders_from i (s ∷ ss) ls =
    leaders_from (i + 1) ss
      (if is_connected_leader s then add_leader (get_state s.1).0 i ls else ls)

pub data Check {ℓ} (A : Type ℓ) : Type ℓ where
  fatal : Check A
  passed : A → Check A

abbrev pub later_term : ℕ → Option ℕ → Option ℕ
later_term t none = some t
later_term t (some u) = if ltb u t then some t else some u

-- The loop over the map: no term has two leaders, and the latest term; `none` is -1.
unfoldable pub last_term : Leaders → Option ℕ → Check (Option ℕ)
last_term [] last = passed last
last_term ((t, ids) ∷ rest) last =
    let lower = last_term rest (later_term t last) in if ltb 1 (length ids) then fatal else lower

-- `leaders[term]`
unfoldable pub of_term : ℕ → Leaders → List ℕ
of_term t [] = []
of_term t ((u, ids) ∷ rest) = let lower = of_term t rest in if u == t then ids else lower

-- The first of the leaders of the latest term; no leader at all is `passed none`.
abbrev pub pick : Leaders → Check (Option ℕ) → Check (Option ℕ)
pick ls fatal = fatal
pick ls (passed none) = passed none
pick ls (passed (some t)) = elim (of_term t ls) [ [] ↦ fatal | i ∷ ids ↦ passed (some i) ]

-- One of the ten rounds of `checkOneLeader`.
unfoldable pub one_round : List Seen → Check (Option ℕ)
unfolding leaders_from last_term of_term
one_round ss = let ls = leaders_from 0 ss [] in pick ls (last_term ls none)

-- `checkOneLeader`, with what it sees in each round.
unfoldable pub check_one_leader : List (List Seen) → Check ℕ
unfolding one_round
check_one_leader [] = fatal
check_one_leader (ss ∷ rounds) =
    let again = check_one_leader rounds in
    elim (one_round ss) [ fatal ↦ fatal | passed none ↦ again | passed (some i) ↦ passed i ]

-- `checkTerms`: the term of the servers before, and the rest of them.
unfoldable pub check_terms : Option ℕ → List Seen → Check (Option ℕ)
check_terms term [] = passed term
check_terms term ((false, rf) ∷ ss) = check_terms term ss
check_terms none ((true, rf) ∷ ss) = check_terms (some (get_state rf).0) ss
check_terms (some t) ((true, rf) ∷ ss) =
    let lower = check_terms (some t) ss in if t == (get_state rf).0 then lower else fatal

-- `checkNoLeader`: the first connected server that claims to be the leader, with which it is fatal.
unfoldable pub check_no_leader : ℕ → List Seen → Option ℕ
check_no_leader i [] = none
check_no_leader i (s ∷ ss) =
    let later = check_no_leader (i + 1) ss in if is_connected_leader s then some i else later
