-- ===== src/Raft/Harness/Rig.antt =====
-- The servers of the harness src/raft/config.go and their links: crash1, start1, connect and
-- disconnect over the network of src/labrpc/labrpc.go. A name of a link is a number; the random ones
-- of start1 are its argument. `none` is a panic or the end of the test.
use spring.Common.{
  ℕ, ◌+◌, Bool, true, false, not, List, [], ◌∷◌, ◌++◌, Option, none, some, ◌==◌, if◌then◌else◌,
  length, get_elem?, put, replicate, empty, ◌>>=◌,
}
use spring.Raft.Types.{Raft, Gob, Bytes, Persister, Command}
use spring.Raft.Persist.{make, make_persister, copy, save, read_raft_state, read_snapshot, is_empty}
use spring.Labrpc.Network.{
  Network, make_network, admin, make_end, add_server, delete_server, enable,
}
use spring.Raft.Harness.Books.{Delivered}
use spring.Labrpc.Network

-- The row of a server holds the names of its links to all servers; a server that has not been
-- started has none.
abbrev pub Rows : Type 0
Rows = List (Option (List ℕ))

pub record Rig : Type 0 where
  pub net : Network
  pub rafts : List (Option Raft)
  pub connected : List Bool
  pub saved : List (Option Persister)
  pub endnames : Rows
  pub logs : List Delivered
  pub last_applied : List ℕ

-- The names at the connected servers; a name that is not there is a panic.
unfoldable pub on_names : List Bool → List (Option ℕ) → Option (List ℕ)
on_names [] names = some []
on_names (c ∷ cs) [] = none
on_names (false ∷ cs) (name ∷ names) = on_names cs names
on_names (true ∷ cs) (name ∷ names) = do e ← name; rest ← on_names cs names; some (e ∷ rest)

-- The names that are there.
unfoldable pub off_names : List (Option ℕ) → List ℕ
off_names [] = []
off_names (none ∷ names) = off_names names
off_names (some e ∷ names) = e ∷ off_names names

-- `cfg.endnames[i][j]` for all j.
abbrev pub row_names : List ℕ → List (Option ℕ)
row_names [] = []
row_names (e ∷ es) = some e ∷ row_names es

abbrev pub name_in : Option (List ℕ) → ℕ → Option ℕ
name_in none i = none
name_in (some es) i = get_elem? es i

-- `cfg.endnames[j][i]` for all j.
abbrev pub column : ℕ → Rows → List (Option ℕ)
column i [] = []
column i (row ∷ rows) = name_in row i ∷ column i rows

unfoldable pub enable_all : Bool → List ℕ → Network → Option Network
unfolding admin
enable_all b [] net = some net
enable_all b (e ∷ es) net = do net' ← admin (enable e b) net; enable_all b es net'

unfoldable pub connect : ℕ → Rig → Option Rig
unfolding on_names enable_all
connect i cfg = do
  connected ← put cfg.connected i true
  row ← get_elem? cfg.endnames i
  names ← row
  outgoing ← on_names connected (row_names names)
  net ← enable_all true outgoing cfg.net
  incoming ← on_names connected (column i cfg.endnames)
  net' ← enable_all true incoming net
  some (record cfg { connected = connected; net = net' })

abbrev pub own_names : Option (List ℕ) → List (Option ℕ)
own_names none = []
own_names (some es) = row_names es

unfoldable pub disconnect : ℕ → Rig → Option Rig
unfolding off_names enable_all
disconnect i cfg = do
  connected ← put cfg.connected i false
  row ← get_elem? cfg.endnames i
  net ← enable_all false (off_names (own_names row)) cfg.net
  net' ← enable_all false (off_names (column i cfg.endnames)) net
  some (record cfg { connected = connected; net = net' })

-- A fresh persister with the content of the old one, twice.
abbrev pub copied : Option Persister → Option Persister
copied none = none
copied (some ps) =
    let ps' = copy ps in some (save make_persister (read_raft_state ps') (read_snapshot ps'))

unfoldable pub crash1 : ℕ → Rig → Option Rig
unfolding disconnect admin copy save read_raft_state read_snapshot
crash1 i cfg = do
  cfg' ← disconnect i cfg
  net ← admin (delete_server i) cfg'.net
  ps ← get_elem? cfg'.saved i
  saved ← put cfg'.saved i (copied ps)
  rafts ← put cfg'.rafts i none
  some (record cfg' { net = net; saved = saved; rafts = rafts })

-- `MakeEnd` and `Connect` for the links of a server, from server `j` on.
unfoldable pub make_ends : ℕ → List ℕ → Network → Option Network
unfolding admin
make_ends j [] net = some net
make_ends j (e ∷ es) net = do
  made ← admin (make_end e) net
  net' ← admin (Network.connect e j) made
  make_ends (j + 1) es net'

-- The harness's state of the service in a snapshot: its index and the commands. `labgob` decodes it.
abbrev pub Decode : Type 0
Decode = Bytes → Option (ℕ × List Command)

-- `ingestSnap` for a snapshot that is not empty; an index of `none` is -1. A snapshot of another
-- index is an error, which ends the test.
unfoldable pub ingest_snap : Decode → ℕ → Bytes → Option ℕ → Rig → Option Rig
ingest_snap decode i snapshot index cfg = do
  (last_included, xlog) ← decode snapshot
  logs ← put cfg.logs i (λ j. get_elem? xlog j)
  last ← put cfg.last_applied i last_included
  if fits index last_included then some (record cfg { logs = logs; last_applied = last }) else none
  where
    fits : Option ℕ → ℕ → Bool
    fits none x = true
    fits (some index) x = index == x

module _ (g : Gob) (decode : Decode) where
  -- The persister that a server starts with, and the service's state in its snapshot.
  unfoldable pub restore_saved : ℕ → Option Persister → Rig → Option (Persister × Rig)
  unfolding ingest_snap copy read_snapshot
  restore_saved i none cfg = some (make_persister, cfg)
  restore_saved i (some ps) cfg =
      let ps' = copy ps in
      let snapshot = read_snapshot ps' in
      if is_empty snapshot
      then some (ps', cfg)
      else (do cfg' ← ingest_snap decode i snapshot none cfg; some (ps', cfg'))

  -- `start1` with the new names; `server` is the pointer of the new server of the network.
  unfoldable pub start1 : ℕ → List ℕ → ℕ → Rig → Option Rig
  unfolding crash1 make_ends restore_saved admin
  start1 i names server cfg = do
    crashed ← crash1 i cfg
    rows ← put crashed.endnames i (some names)
    net ← make_ends 0 names crashed.net
    last ← put crashed.last_applied i 0
    old ← get_elem? crashed.saved i
    (ps, restored) ←
        restore_saved i old (record crashed { endnames = rows; net = net; last_applied = last })
    saved ← put restored.saved i (some ps)
    rafts ← put restored.rafts i (some (make g (length names) i ps))
    net' ← admin (add_server i server) restored.net
    some (record restored { saved = saved; rafts = rafts; net = net' })

-- What a test does with the servers.
pub data Deed : Type 0 where
  starts : (i : ℕ) (names : List ℕ) (server : ℕ) → Deed
  crashes joins leaves : (i : ℕ) → Deed

unfoldable pub deed : Gob → Decode → Deed → Rig → Option Rig
unfolding start1 crash1 connect disconnect
deed g decode (starts i names server) cfg = start1 g decode i names server cfg
deed g decode (crashes i) cfg = crash1 i cfg
deed g decode (joins i) cfg = connect i cfg
deed g decode (leaves i) cfg = disconnect i cfg

unfoldable pub deeds : Gob → Decode → List Deed → Rig → Option Rig
unfolding deed
deeds g decode [] cfg = some cfg
deeds g decode (d ∷ ds) cfg = do cfg' ← deed g decode d cfg; deeds g decode ds cfg'

-- `make_config` for `n` servers, before any has started.
abbrev pub empty_rig : Bool → ℕ → Rig
empty_rig unreliable n = record {
  net = record make_network { reliable = not unreliable; long_delays = true };
  rafts = replicate n none;
  connected = replicate n false;
  saved = replicate n none;
  endnames = replicate n none;
  logs = replicate n empty;
  last_applied = replicate n 0;
}

abbrev pub start_all : ℕ → List (List ℕ × ℕ) → List Deed
start_all i [] = []
start_all i ((names, server) ∷ rest) = starts i names server ∷ start_all (i + 1) rest

abbrev pub join_all : ℕ → List (List ℕ × ℕ) → List Deed
join_all i [] = []
join_all i (s ∷ rest) = joins i ∷ join_all (i + 1) rest

-- `make_config`, with the names of the links and the pointer of each server.
abbrev pub make_config : List (List ℕ × ℕ) → List Deed
make_config servers = start_all 0 servers ++ join_all 0 servers
