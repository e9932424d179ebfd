-- ===== src/Lib.antt =====
-- The Go labs of `src`: a Raft library, a key/value server with its clerks, and a MapReduce
-- system. A peer of Raft (`src/raft`) elects leaders, replicates a log, persists it, compacts it
-- into snapshots and hands the committed commands to a service. The key/value server of one
-- machine (`src/kvsrv`) serves clerks over a network that loses messages. The coordinator of
-- MapReduce (`src/mr`) hands map and reduce tasks to workers and gives up silent ones. The clerks
-- of the shard controller (`src/shardctrler`) and of the sharded service (`src/shardkv`) look for
-- the servers that answer. The simulated network (`src/labrpc`) carries the calls. The wrappers
-- `labgob` of encoding/gob, the linearizability checker `porcupine` (a copy of that library), the
-- transport of MapReduce and the other test harnesses are not modelled; the servers of `kvraft`,
-- `shardctrler` and `shardkv` are skeletons with empty handlers, and so is the clerk of `kvraft`.
--
-- Parts and files.
-- - Common: native numbers with Boolean tests (Tests), Go slices as lists with a read, a write and
--   a slice out of range as `none` (Lists), the differences that can be negative (Int), Go maps as
--   functions (Maps).
-- - Raft/Types is the state and the messages of src/raft/raft.go. Raft/Index has V2PIndex, P2VIndex
--   and the reads of the log; Raft/Persist has persist, readPersist, Make and Kill, with
--   src/raft/persister.go; Raft/Vote has ElectLauncher, RequestVoteHandler, ElectionGoroutine and
--   the sections of SendRequestVote; Raft/Append has HeartbeatHandler; Raft/Leader has
--   HeartBeatLauncher, HeartBeatGoroutine, SendHeartbeat, Start and the whole of SendRequestVote;
--   Raft/Snapshot has Snapshot, SendSnapshot and InstallSnapshot; Raft/Apply has one round of the
--   goroutine that delivers to the service. Raft/Node puts them together as the events of one peer.
-- - Raft/Cluster puts several peers together for elections: each peer is a node of Raft/Node, and
--   the goroutines of SendRequestVote of each election take its vote requests, the replies and the
--   counts as separate moves, in any order. A request or a reply that is lost is never moved.
-- - Raft/Logs adds the entries that leaders send: HeartBeatLauncher puts its messages on the
--   network, and HeartbeatHandler takes any of them, again and again, in any order or never. Its
--   events are elections, commands, crashes and restarts; no service compacts a log, and a message
--   that would send a snapshot is lost. Raft/Logs/Runs is the invariant of a run, and
--   Raft/Logs/Matching what follows from it.
-- - Raft/Harness and Raft/Harness/Books have the checks of src/raft/config.go on the leaders and on
--   the commands that servers deliver: checkOneLeader, checkTerms, checkNoLeader, checkLogs,
--   applier, nCommitted and wait. What a check reads, one server after the other, is an argument;
--   Raft/Harness/Looks takes it from a run of Raft/Logs. Raft/Harness/Rig has its servers, with
--   make_config, start1, crash1, connect and disconnect over the network of Labrpc/Network. Its
--   applierSnap, one(), cleanup and statistics are not modelled.
-- - Raft/Valid, Terms, Receive, Replicate, Commit, Elect, Compact, Delivery, Backup and the modules
--   under Raft/Node, Raft/Cluster, Raft/Logs and Raft/Harness are the proofs, named for what they
--   are about. Raft/Tests has runs.
-- - Kvsrv/Server has the handlers of src/kvsrv/server.go, Kvsrv/Clerk the loops of
--   src/kvsrv/client.go; Kvsrv/Calls and Kvsrv/Once are the proofs, Kvsrv/Tests the runs.
-- - Mr/Types has the data of src/mr/coordinator.go and src/mr/rpc.go, Mr/Coordinator its handlers,
--   start state, loop body of Heart and the events of a run; Mr/Counting, Counted, Progress,
--   Handing and Repeats are the proofs, Mr/Tests the runs. Mr/Worker has doMap, doReduce and a turn
--   of Worker of src/mr/worker.go, Mr/Grouping the proofs about them; the user's functions, the
--   hash of hash/fnv, the sort of package sort and encoding/json are parameters, and a file between
--   the phases is the list of the JSON values in it. Mr/Sequential has src/main/mrsequential.go and
--   a whole job of src/mr, from the map tasks in the order of their commits, each once, to the
--   lines of all the reduce tasks, and Mr/Applications the functions of src/mrapps/wc.go and
--   src/mrapps/indexer.go; Mr/Order, Lines, Reduced, Texts, Shares, Agreement, Counts and Index are
--   the proofs.
-- - Models/Kv has the model of src/models/kv.go, Models/Server and Models/Runs the proofs that
--   relate a step and a run of the key/value server to it, Models/Tests the runs.
-- - Labrpc/Server has the servers and services of src/labrpc/labrpc.go and Labrpc/Network its network,
--   with processReq as the steps of a request; Labrpc/Once and Labrpc/Routing are the proofs,
--   Labrpc/Tests the runs.
-- - Shard/Ctrler has the data and the clerk of src/shardctrler/common.go and client.go, over a record
--   of the calls of the controller, Shard/Clerk those of src/shardkv; a loop without end has a number
--   of rounds and no result when they are used up. Shard/Asking, Serving and Getting are the proofs,
--   Shard/Tests the runs.
--
-- State and steps. A handler holds the lock from its start to its end, so it is one function of
-- the state; a function that sends an RPC is split at the call, and the message sent is a part of
-- its result. The reply and its order against other events are the environment's: in Raft/Node
-- any sequence of events is a run, and in Kvsrv/Clerk each try of a clerk may be lost, unanswered
-- or answered, with any requests of others before it. `none` is a run-time panic of Go, an index
-- outside a slice, and a run ends there. The clock's reading is an argument. `Task` of MapReduce
-- has two sections, under two locks, and is taken as one step.
--
-- Numbers. A Go int is a native natural number where the code keeps it non-negative; -1 as a mark
-- is `none`; a difference that can be negative is an integer. Terms and indices are not bounded
-- by 2^63, which no run reaches; the uint32 counter of votes keeps its wrap-around. Go strings
-- are lists of bytes. A Go map is a function; where the code ranges over one, the
-- events choose the order, or the result does not depend on it.
--
-- Loops. The loops of the code are recursion on a list or on the index that they count down. The
-- goroutine that delivers runs round by round, with `CommitIndex - LastApplied + 1` rounds of
-- fuel, after which it waits. A clerk's loop is recursion on the rounds that the network plays.
--
-- `Heart` visits the workers in an order that the events of Mr/Coordinator choose, and its check
-- of a worker is one step, though the code does not hold the coordinator's lock there. A call of
-- `Task` that has to wait is an answer; it does nothing more than reply when it is woken.
--
-- In Raft/Cluster the test of the term in `SendRequestVote` and the count of the vote are two moves,
-- and any step may come between. The count itself, which the code does without the lock, and the
-- section under the lock that follows it are one move: no step comes between these.
--
-- The parameter for encoding/json is the record `Json`; the theorems on whole jobs take as a
-- hypothesis that a pair of strings in valid UTF-8 is decoded as it was encoded, as the package
-- documents. Other strings come back with U+FFFD in them, and nothing is said of them.
--
-- The encoding of `labgob` is the record `Gob`, a section parameter: decoding what was encoded
-- gives it back, and an encoding is not empty. Not modelled: debug output, sleeps, and the
-- channel to the service, whose messages are results of the steps.
pub mod Common
pub mod Raft
pub mod Kvsrv
pub mod Mr
pub mod Models
pub mod Labrpc
pub mod Shard
