-- ===== src/Raft/Tests/Rig.antt =====
-- Servers of the harness src/raft/config.go that start, crash and start again, and the theorem on
-- their links at them.
use spring.Common.{true, false, List, [], ◌∷◌, ◌++◌, Option, none, some, ◌≡◌, refl}
use spring.Labrpc.Network.{admin, read_endname_info}
use spring.Raft.Persist.{copy, save, read_raft_state, read_snapshot}
use spring.Raft.Harness.Rig.{
  Rig, Decode, Deed, starts, joins, leaves, deeds, empty_rig, make_config, restore_saved,
}
use spring.Raft.Harness.Running.{links_lem}
use spring.Raft.Tests.{plain_gob}

abbrev no_snapshot : Decode
no_snapshot snapshot = none

-- Server 0 starts again with new links, and server 2 leaves.
abbrev days : List Deed
days =
    make_config
      ((10 ∷ 11 ∷ 12 ∷ [], 100) ∷ (20 ∷ 21 ∷ 22 ∷ [], 101) ∷ (30 ∷ 31 ∷ 32 ∷ [], 102) ∷ [])
    ++ (starts 0 (40 ∷ 41 ∷ 42 ∷ []) 103 ∷ joins 0 ∷ leaves 2 ∷ [])

abbrev or_empty : Option Rig → Rig
or_empty none = empty_rig false 3
or_empty (some cfg) = cfg

abbrev end : Rig
end = or_empty (deeds plain_gob no_snapshot days (empty_rig false 3))

days_pass : deeds plain_gob no_snapshot days (empty_rig false 3) ≡ some end
unfolding deeds restore_saved copy save read_raft_state read_snapshot admin
days_pass = refl

new_link :
    read_endname_info 41 end.net ≡ some (record { servername = 1; server = 101; reliable = true })
unfolding deeds restore_saved copy save read_raft_state read_snapshot admin read_endname_info
new_link = refl

old_link : read_endname_info 11 end.net ≡ none
unfolding deeds restore_saved copy save read_raft_state read_snapshot admin read_endname_info
old_link = refl

links_lem_example :
    read_endname_info 41 end.net ≡ some (record { servername = 1; server = 101; reliable = true })
unfolding deeds restore_saved copy save read_raft_state read_snapshot admin
links_lem_example = links_lem plain_gob no_snapshot false 3 days 0 1 days_pass refl
