-- ===== src/Lib.antt =====
-- Verification library of yukino.go, a family of Go infrastructure libraries.
--
-- Parts. Each file opens with the code that it is about; paths are from the root of the repository.
-- - Raft: components/raft/raft, the consensus library. Raft/Model has the types of model.go;
--   Raft/Storage, Raft/Unstable and Raft/Log are storage.go and log.go (the log is a stable part in
--   storage and an unstable tail); Raft/Progress is progress.go; Raft/ReadOnly is read.go;
--   Raft/State, Raft/Quorum, Raft/Follower, Raft/Leader, Raft/Campaign and Raft/Step are raft.go,
--   follower.go, leader.go and candidate.go (`Step` is `step_raft`, `stepLeader` is `run_leader`,
--   and so on); Raft/Node is node.go and ready.go, with the loop of `Node.run` as `round`, one event
--   at a time. Proofs stand in the child modules, and Raft/Tests has the concrete runs.
-- - Rpc: libs/yukino_rpc/internal. Rpc/Breaker is breaker/breaker.go (`Allow` is `allow`, the state
--   `Open` is `opened`); Rpc/Limiter is limiter/token_bucket.go; Rpc/Balance is
--   load_balance/round_robin.go and weighted_rr.go (their `Select` are `next` and `select`);
--   Rpc/Protocol is protocol/message.go and header.go, codec/compress.go and the packet buffer of
--   transport/tcp_connection.go. Clock readings are arguments, floating point is an interface, and
--   encoding/json and compress/gzip are the parameter `Packages`. Counts and sizes of the
--   configuration are natural numbers: they are taken to be non-negative.
-- - TimeWheel: components/time_wheel/time_wheel.go, one event of its goroutine at a time; a task
--   is a number, and its run an output. TimeWheel/History has the loop, with the tasks that it
--   starts, and TimeWheel/Timing what it promises; their invariant is in TimeWheel/Valid.
-- - Cache: libs/yukino_cache; Cache/Ring is consistent_hash.go, over any hash.
-- - Http: libs/yukino_http; Http/Trie is trie.go and Http/Router is router.go.
-- - Lsm: components/lsm_tree. Lsm has the integers of encoding/binary; Lsm/Wal is wal/writer.go and
--   wal/reader.go, Lsm/Block is block.go with the reading of blocks in sst_reader.go, Lsm/Filter is
--   filter/bloom_filter.go, Lsm/Table is sst_writer.go and sst_reader.go, and Lsm/Node is the lookup
--   of node.go. A file is its bytes. The loops over records have the number of bytes as fuel, since
--   every record takes one at least, and the binary search has the number of entries, since the
--   interval gets shorter.
-- - Tcc: components/tcc, over the store of apps/task_flow/server/internal/engine/tccstore.go. Tcc has
--   model.go, tccregister.go and `advanceProgress`. Tcc/System is one transaction: `twoPhaseCommit`
--   and the monitors are steps, in any order; its clock is a number, the components answer as they
--   like, the database may fail at any call, and refuses a write whose context is over.
-- - Base: what the parts share: lists, maps, equality, words, fallible code and its postconditions.
--
-- Conventions. A method takes the state and returns the new one. `Res` is a result, a returned
-- error, or a panic; a nil pointer and an index out of range are panics. `uint64` is a number below
-- 2^64 with the wrap-around written out, `int32` is its bit pattern. A Go map is an association
-- list: its order stands for the order in which `range` visits the keys, which Go leaves open.
-- Random draws are a sequence in the state. Mutexes make each method one atomic step.
-- Loops recur on a list; those over the records of a log or a block, and the search in an index,
-- have fuel.
--
-- Not modelled: the channels and goroutines around `Node.run` and the time wheel, JSON, sockets and
-- network transport, the handlers of the HTTP router, the levels of the LSM tree and its skip list,
-- the stores and peers of the cache, and what only calls Redis, a database, etcd or a language
-- model. Slices are values: no theorem is about a slice that two owners share.
pub mod Base
pub mod Raft
pub mod Rpc
pub mod TimeWheel
pub mod Cache
pub mod Http
pub mod Lsm
pub mod Tcc
