-- ===== src/Lib.antt =====
-- Verification of the programs of this repository that keep state.
--
-- MessageQueue models python-deep-dive/03-simple-message-queue.py. MessageQueue.antt has the
-- state and the methods `publish`, `receive`, `ack` and `requeue_expired` of `SimpleQueue`; each
-- runs under the lock, so it is a function from state to state. MessageQueue/History.antt runs
-- any sequence of calls, MessageQueue/Log.antt extends it call by call, and
-- MessageQueue/Threads.antt has the threads that wait on the condition as a step relation.
-- MessageQueue/Contract.antt has the abstract view, two bags of messages that forget all order
-- (Prelude/Bags.antt), MessageQueue/Demo.antt the program's producer, consumers and monitor, and
-- MessageQueue/Demo/Calls.antt the calls that they make.
-- KvStore models kv-store/app. KvStore/Models.antt is models.py, KvStore/Pools.antt is db.py, and
-- KvStore/Handlers.antt and KvStore/Lifespan.antt are main.py. The handlers call the pools for a
-- connection and send one SQL statement each. PostgreSQL behind asyncpg is not in the repository:
-- KvStore/Engine.antt has what the statements do, as documented, as a parameter, and
-- KvStore/Table.antt is a table that meets it. KvStore/Status.antt reads status lines.
-- KvStore/Requests.antt has the abstract view of the whole, a map from keys to values with
-- deadlines, and runs of requests and cleanup rounds, and KvStore/Program.antt the application
-- from its startup to its shutdown. KvStore/Backlog.antt has rounds of the cleanup after each
-- other.
-- ConnectionPool models connection-pooling/pool.py. ConnectionPool.antt has `FakeConnection`, the
-- bounded queue and the methods, ConnectionPool/Factory.antt the constructor with any
-- `connect_fn`; ConnectionPool/Threads.antt has the workers and `close`, step by step, in any
-- order, ConnectionPool/Places.antt the places where a connection can be, and
-- ConnectionPool/Demo.antt the main part, which joins the workers and then closes the pool.
-- GoPool models connection-pooling/pool.go, the same pool in Go: GoPool.antt has the connections,
-- the buffered channel and the methods, GoPool/Made.antt and GoPool/Agreement.antt relate them to
-- ConnectionPool, and GoPool/Closed.antt has a pool that is closed. GoPool/Program.antt has
-- `main` and its goroutines, step by step, in any order, and GoPool/Program/Simulation.antt reads
-- them as threads of pool.py.
-- ConditionPool models python-deep-dive/02-condition-variables.py: `SimpleConnectionPool` over
-- the queue of waiters of its condition, with the threads' positions as a step relation.
-- ConditionPool/Demo.antt has the main part, in which each thread runs `worker` once, and
-- ConditionPool/BusyWait.antt the busy wait, which has no lock.
-- EventLoop models python-deep-dive/04a-select-vs-epoll.py: EventLoop/Select.antt is
-- `run_select_server`, EventLoop/Selectors.antt is `run_selectors_server`, each a loop over what
-- the operating system reports, EventLoop/Agreement.antt relates their states,
-- EventLoop/Cleanup.antt compares what they close, and EventLoop/Clients.antt has the test
-- clients, EventLoop/Answers.antt what a server sends them, and EventLoop/Main.antt `main`.
-- Counters models python-deep-dive/01-threads-and-locks.py: Counters/Unsafe.antt has the threads
-- that count without a lock, Counters/Locked.antt those with it and Counters/Isolated.antt those
-- with local counters, for any number of threads and rounds.
-- Kafka models task-delegation/kafka-example: Kafka.antt has the producers of run_demo.py and
-- kafka_producer.py, from their creation over the sends to flush and close, over the client
-- library, a parameter with its documented behaviour: a send goes into a buffer, and only flush
-- promises that the topic has it; any call may raise, and the client may give a record up.
-- Kafka/Orders.antt and Kafka/Delivery.antt have what is sent and delivered, Kafka/Consumer.antt
-- the loop of `run_consumer`, Kafka/Members.antt the settings of the consumers and the brokers
-- that assign them the partitions, Kafka/Topics.antt `create_topic`, Kafka/Groups.antt the two
-- demos of run_demo.py, and Kafka/Programs.antt the main parts of kafka_producer.py and
-- kafka_consumer.py.
-- Text has texts as character codes and `str` and `int` of numbers, Dict is Python's dictionary
-- with text keys, and Prelude the shared names, lists and integers.
--
-- Times are numbers of clock ticks (seconds in the store, as in the code), so fractions of a tick
-- are not modelled. Readings of the clock, new uuids, the result of health checks and connection
-- attempts, and the fate of a statement are arguments. Numbers have no upper bound, also the ids
-- of pool.go, which are of Go's int there. The only fuel is that of `decimal`, one more than the
-- number it prints, which is more than it has digits.
--
-- Not modelled: printing and logging (but for the count that the cleanup logs), the layout of the
-- HTTP messages, the connections inside an asyncpg pool, replication from the primary to the
-- replicas (the tables behind the ports are arbitrary), the system calls that make the servers'
-- listening sockets, the sleeps of the test clients, Kafka's rebalancing (a demo's consumers have
-- the partitions that they get once both are there), and failures of its administration other
-- than a topic that is there already.
pub mod Prelude
pub mod Text
pub mod Dict
pub mod MessageQueue
pub mod KvStore
pub mod ConnectionPool
pub mod GoPool
pub mod ConditionPool
pub mod Counters
pub mod EventLoop
pub mod Kafka
