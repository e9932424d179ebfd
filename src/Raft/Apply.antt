-- ===== src/Raft/Apply.antt =====
-- `ApplyGoroutine` of src/raft/raft.go. `none` is a panic at the read of the log.
use spring.Common.{ℕ, zero, suc, ◌+◌, List, [], ◌∷◌, Option, none, some, ltb, if◌then◌else◌, ◌>>=◌}
use spring.Raft.Types.{Raft, ApplyMsg, command_msg}
use spring.Raft.Index.{entry_at}
use spring.Raft.Persist.{killed}

-- One round of the loop: the message that is sent, or nothing where the goroutine waits, or ends
-- since the peer has been killed.
unfoldable pub apply_step : Raft → Option (Raft × Option ApplyMsg)
unfolding killed
apply_step rf =
    if killed rf
    then some (rf, none)
    else if ltb rf.last_applied rf.commit_index
    then (do
      let rf' = record rf { last_applied = rf.last_applied + 1 }
      e ← entry_at rf' rf'.last_applied
      some (rf', some (command_msg e.command rf'.last_applied)))
    else some (rf, none)

-- The rounds until the goroutine waits or ends, if no other step comes between: neither while it
-- sends, when it has given the lock back, nor a `Kill`.
unfoldable pub apply_all : ℕ → Raft → Option (Raft × List ApplyMsg)
apply_all zero rf = none
apply_all (suc fuel) rf = do
  (rf', sent) ← apply_step rf
  elim sent [
    | none ↦ some (rf', [])
    | some msg ↦ do (last, msgs) ← apply_all fuel rf'; some (last, msg ∷ msgs)
  ]
