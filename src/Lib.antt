-- ===== src/Lib.antt =====
-- uq is a message queue server. A queue has topics. A topic is a sequence of messages that clients push
-- at its tail, and it has lines, each of which reads the whole sequence on its own. A line either
-- forgets a message once it has been popped, or, if it has a recycle time, keeps it in flight until the
-- client confirms it, and hands it out again when the time is over. Messages, and the state of topics
-- and lines, are kept in a storage of keys and values; a topic deletes the messages that no line needs
-- any more.
--
-- The parts, and the files that model them:
-- utils/error.go: Utils/Errors. The codes, messages and HTTP status of errors, and results.
-- utils/strings.go: Utils/Strings. ItoaQuick, Acatui, Acati, Addrcat and Atoi, with the parts of Go's strconv
-- and strings that the code uses: FormatUint, ParseUint, Atoi, Itoa, TrimPrefix, TrimSuffix, Split at a
-- slash, Join, HasPrefix, Contains and ContainsAny. They follow the documentation of Go for texts over
-- bytes.
-- store/storage.go: Store/Interface. The interface as a record of operations; its laws are a record of
-- hypotheses, which Store/MemStore fills for the in-memory storage of store/memStore.go.
-- queue/uLine.go: Queue/Line for updateiHead (advance, update_ihead), pop, mPop (m_pop) and confirm;
-- Queue/LineData for exportRecycle, exportLine, stat, empty and remove.
-- queue/uTopic.go: Queue/Topic for push, mPush, pop, mPop, confirm and getEnd; Queue/Topic/Clean for
-- clean and the ticks of backgroundClean; Queue/Topic/Admin for the creation, loading, export and
-- removal of lines, and for stat, empty and remove.
-- queue/uQueue.go: Queue/UnitedQueue for Push, MultiPush, Pop, MultiPop, Confirm and MultiConfirm;
-- Queue/UnitedQueue/Admin for Create, Stat and Empty; Queue/UnitedQueue/Remove for Remove and Close;
-- Queue/UnitedQueue/Load for NewUnitedQueue and loadQueue. setData, getData and delData are in
-- Queue/Deps.
-- queue/uEtcd.go: the requests of registerTopic, registerLine and their opposites are in Queue/Deps, the
-- handlers nodeCreate and nodeRemove in Queue/UnitedQueue/Remove.
-- queue/uStat.go: Queue/Stats, the texts of a Stat. queue/queue.go: Queue/Interface, the interface
-- MessageQueue as a record of operations, and UnitedQueue as one of its values (united).
-- entry/redisCommand.go, redisSession.go, redisReply.go: Entry/Redis/Session has the bytes of a command,
-- readCommand with readLine, readInt, skipByte and skipBytes, and writeReply; Entry/Redis/Command has the
-- name and the arguments of a command and the rules of redisValidate.go. entry/redisQueue.go:
-- Entry/Redis/Handlers. entry/redisEntry.go: Entry/Redis/Server (process, handlerConn). What only a client
-- calls is in Entry/Redis/Client (readReply, readRDB) and Entry/Redis/Buffer (parseCommand).
-- entry/mcEntry.go, mcResponse.go: Entry/Memcached/Input for the reads, Entry/Memcached/Request for read,
-- Entry/Memcached/Process for process and Write, Entry/Memcached/Server for handlerConn.
-- entry/httpEntry.go: Entry/Http, with utils/httpUtils.go in Utils/Http. admin/uAdmin.go: Admin.
-- entry/entry.go: Entry, with the parts of Go that the servers need and that are parameters (Runtime).
-- Entry/Bufio has the reads of a bufio.Reader. uq.go: Main, with main as the list of what it opens, serves,
-- stops and closes, over which calls fail.
-- queue/uq.pb.go: the record types InflightMessage (Message), UnitedLineStore (LineStore),
-- UnitedTopicStore (TopicStore) and UnitedQueueStore (QueueStore).
--
-- How they fit together: a UnitedQueue looks its topic up by name and calls it; a topic looks its line
-- up and calls it; a line reads its messages through the topic. In the model an operation takes the
-- state it works on, the clock reading `now` where the code calls time.Now, and the world (the content
-- of the storage and the requests sent to etcd), and returns its result with the new state. An object
-- that is changed is put back under its name in the map that holds it. An error is a value, and what
-- was changed or written before it stays. A call that waits for ever for its own lock has the outcome
-- `blocks`, and one that panics on stored data has the outcome `panics`.
--
-- A server takes any MessageQueue, so that what is said of it holds for every queue behind it. The input of
-- a connection is the sequence of bytes that come in until it ends, and the output the sequence of bytes
-- that are written. A handler either is done, or waits for ever for a lock of the queue (`hangs`), or
-- panics (`crashes`); the code recovers nowhere, so a panic ends the process. The clock of a session is a
-- function of how much of its input is left. `room` is how much `make` can allocate.
--
-- Numbers: ids, heads and tails are uint64; `n++` is `inc64`, which wraps at 2 ^ 64. A theorem whose
-- conclusion needs it asks that the ids stay below 2 ^ 64. A duration is an integer of nanoseconds, and
-- a reading of the clock a natural number of them since 1970. The time at which a message expires is an
-- int64 (Queue/Line, exptime_at and is_after): it wraps around for a long recycle time, and a theorem
-- about how long a message is held back asks that it does not.
--
-- Loops: the loop of updateiHead and that of clean run on fuel, which is the number of ids that are left
-- below the bound of the loop. A round moves one id on, so that is enough, and theorems below say so.
-- The rounds of a connection run on fuel too, one more than the input has bytes. A session that uses them
-- up is cut off, which is a value of its own (Session in Entry); a theorem for each server says that this
-- does not happen, and that more rounds change nothing. The other loops are structural.
--
-- Concurrency: each operation on a line or a topic is one step, and a run is a sequence of steps. For
-- push, mPush, pop, mPop and confirm this is what the locks of the code give: they hold the locks of what
-- they change from start to end. For the others it is a simplification. getEnd reads the lines, their heads
-- and ihead and the tail without their locks, newLine reads the head of the topic without its lock while
-- clean may be moving it, and empty takes its locks one after the other; runs in which another
-- operation falls in between are not modelled. A walk over a Go map goes in the order of a list, which
-- stands for the order that Go happens to choose.
--
-- Not modelled: the protobuf code and the texts of durations, which are parameters (Queue/Deps), as is
-- the storage; the texts that encoding/json makes, net/http around its handlers, net/http/pprof, and
-- bytes.ToUpper and strings.Fields on texts that are not ASCII, which are parameters too; the network side
-- of etcd; the listeners, and errors of a connection other than its end; what a panicking server wrote
-- before; a write to the in-memory storage after its Close, which panics in Go; log output; the storages on
-- disk, which only call goleveldb and RocksDB (store/goleveldbStore.go, store/rocksdbStore.go), the fake
-- queue (queue/fakeQ.go) and the benchmarks (test/).
--
-- The other modules hold proofs, and stand below the part that they are about: Queue/Line for one line
-- (Valid and Pop first), Queue/Topic for a topic and its storage (Sound says what holds between two
-- operations, Reach follows any number of them, Frame and Apart say which keys an operation writes, Saved
-- and Durable what a restart finds), Queue/UnitedQueue/RoundTrip for keys, Queue/UnitedQueue/LoadTopic,
-- SaveAll, Reload, Restart and Recover for Close and the start after it, Create, Whole, Change, Creation,
-- Discard, Removing and Runs for queues whose topics come and go, Entry/Redis,
-- Entry/Memcached, Entry/Http and Admin for the servers, Store/MemStore and Utils/Strings. Examples
-- holds the theorems at concrete inputs.
pub mod Prelude
pub mod Utils
pub mod Store
pub mod Queue
pub mod Entry
pub mod Admin
pub mod Main
pub mod Examples
