-- ===== src/Lib.antt =====
-- Faust, a stream processing library: a verification library of the parts that decide who
-- processes what, and what is done with it.
--
-- The parts, and how they interact. When workers join or leave, the leader's partition assignor
-- (faust/assignor) gives every topic's partitions to the members, as actives and standbys. Each
-- worker's consumer (faust/transport/consumer.py) fetches records, which the scheduler
-- (faust/transport/utils.py) puts in an order, and the conductor (faust/transport/conductor.py)
-- hands each message to the channels of its partition, with a reference count. A stream
-- (faust/streams.py) gives an agent the events of its channel, one by one or in batches. When the last of
-- them has acknowledged it (faust/events.py, faust/types/tuples.py), the consumer takes note, and
-- commits the offset up to which all of a partition is done; a commit first publishes the messages
-- that were attached to those offsets (faust/app/_attached.py), and then persists the offsets that
-- tables sent to their changelogs (faust/tables/manager.py). Tables are rebuilt from their
-- changelogs by the recovery service (faust/tables/recovery.py), which hands batches to a store:
-- the in-memory one (faust/stores/memory.py), the one that has a RocksDB database for each
-- partition (faust/stores/rocksdb.py), or that of the set tables (faust/tables/objects.py,
-- faust/tables/sets.py). A windowed table (faust/tables/base.py) has a key for each window
-- (faust/windows.py), which it forgets when the window expires. Agents that are asked many things
-- at once wait for the replies at a barrier (faust/agents/replies.py, faust/agents/agent.py).
--
-- The files:
--   Common       lists, dictionaries in insertion order, sets as lists, exceptions as results,
--                sorting, and integers with a sign; no code of the program
--   Types        faust/types/tuples.py: topic partitions and messages
--   Assignor     faust/assignor. Assignor/Copartition is CopartitionedAssignment,
--                Assignor/Copartitioned is CopartitionedAssignor, with the round robin in
--                Assignor/Copartitioned/RoundRobin; Assignor/Client is ClientAssignment and
--                ClusterAssignment, Assignor/Partition is PartitionAssignor
--   Consumer     faust/transport/consumer.py: the state in Consumer, acknowledgements and gaps in
--                Consumer/Acks, the offset to commit in Consumer/Offsets, commits in
--                Consumer/Commit, their transactions in Consumer/Transactions, and the interval
--                trees in Consumer/Intervals
--   Scheduler    faust/transport/utils.py: the order in which fetched records are delivered
--   Conductor    faust/transport/conductor.py: the indices in Conductor, the handler of a
--                partition's messages in Conductor/Handler; Conductor/Acks is Event.ack
--   Streams      faust/streams.py: the iteration over a stream in Streams/Iteration, and the batches
--                of take, take_events, take_with_timestamp and noack_take in Streams/Take
--   Producer     faust/transport/producer.py: ProducerBuffer, with its own queue
--   Windows      faust/windows.py and faust/types/windows.py
--   Recovery     faust/tables/recovery.py, with the loop over changelog events in Recovery/Slurp,
--                and the offsets that it starts with in Recovery/Start
--   Manager      faust/tables/manager.py
--   Stores       faust/stores/memory.py
--   Rocks        faust/stores/rocksdb.py: keys in Rocks, batches of the changelog and persisted
--                offsets in Rocks/Batches, the databases that a rebalance opens and closes in
--                Rocks/Rebalance, and the items of a table in Rocks/Items
--   Objects      faust/tables/objects.py, and ChangeloggedSet of faust/tables/sets.py
--   Attachments  faust/app/_attached.py
--   Barrier      faust/agents/replies.py: ReplyPromise and BarrierState; Barrier/Join is kvjoin of
--                faust/agents/agent.py, with its wait for the barrier
--   Tables       faust/tables/base.py: the expiry of a windowed table's keys in Tables, the
--                operations on all windows of a key in Tables/Windowed
--   Cache        faust/web/cache/backends/memory.py
--   Tests        runs on concrete inputs, with an interval tree as a list of intervals
--
-- A method that changes its object is a function to the changed object, and a definition has the
-- method's name without the leading underscore. An exception is a value; where an exception
-- leaves a changed state behind, the state is part of the result, unless the definition's comment
-- says that it is left out. Numbers are natural numbers: offsets, partitions and times in whole
-- ticks; integers where the program goes below zero. Times of windows are whole tenths of a
-- second, with a sign, and a window's step is positive. In the program a time may fall in the tenth
-- between the end of a window and the start of the next; the model has no such time.
--
-- Bounds and fuel. The scheduler's loop takes as many rounds as there are records and partitions.
-- The assignor's round robin takes fuel too; for active partitions, as many rounds as there are
-- partitions are enough. The loops that pop a set down to a capacity take as many rounds as the
-- set has members. What `set.pop` takes is a choice function. The clock stands still while the old
-- keys of a table are deleted. A database is tried 30 times, as in the program. A flush of the
-- producer's buffer is given an account of what happens during each of its waits.
--
-- Parameters. A RocksDB database is a record of operations with their documented laws, and so is
-- the cache in which a store looks up the partition of a key. What comes of opening a database is a
-- function. The package intervaltree is a record of operations and of the documented facts about
-- them. How a table gets and sets a key is a record of operations with one law, which a dictionary
-- keeps. What the broker, the producer and the Kafka client answer are functions, and so are what
-- a channel decodes from a message, whether its queue is full, and what the processors of a stream
-- do with a value.
--
-- Not modelled: the exceptions of a table's own callbacks during recovery, which the loop logs;
-- services, tasks and their scheduling, logging, sensors and tracing, serialization,
-- the drivers of Kafka and of databases, and the interleaving of other tasks at an `await`, other
-- than as the order of the operations of a history.
pub mod Assignor
pub mod Attachments
pub mod Barrier
pub mod Cache
pub mod Common
pub mod Conductor
pub mod Consumer
pub mod Manager
pub mod Objects
pub mod Producer
pub mod Recovery
pub mod Rocks
pub mod Scheduler
pub mod Stores
pub mod Streams
pub mod Tables
pub mod Tests
pub mod Types
pub mod Windows
