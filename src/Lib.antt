-- ===== src/Lib.antt =====
-- A laboratory of three strategies that replicate a key-value store over HTTP nodes.
--
-- common/ holds what every node has: versions with a last-write-wins order (common/models.py,
-- Common.Models), the store (common/storage.py, Common.Storage), the HTTP handlers and the route
-- table (common/server.py, Common.Server) and the checks of the configs (common/config.py,
-- Common.Config). Common.Storage.Replay looks at a replica as what a sequence of puts makes of it.
--
-- leader_follower/ (LeaderFollower): one leader takes a write, sends it to all followers at once and
-- answers when `ack_required` of them have acknowledged it or the time is up.
-- LeaderFollower.Replicator is `Replicator` with `replicate` and `_send`, LeaderFollower.Leader is
-- `put_key_leader` and `build_app`, LeaderFollower.Config is `ClusterConfig`. LeaderFollower.Sending
-- is all the calls of `_send` of one `Replicator` as a state machine, with the semaphore that bounds
-- them and the closing of the client.
--
-- leaderless/ (Leaderless): any node coordinates a write or a read and waits for W or R nodes.
-- Leaderless.Coordinator is `QuorumCoordinator`, Leaderless.Node the handlers of `build_app`,
-- Leaderless.Config `ClusterConfig`; Leaderless.Quorum is about a read after a write.
--
-- message_queue/ (MessageQueue): a producer publishes to a Kafka topic that every follower consumes
-- by itself. MessageQueue.Producer, MessageQueue.Follower, MessageQueue.Topics and
-- MessageQueue.Config model the file of the same name; MessageQueue.Producer.Process and
-- MessageQueue.Follower.Process are the lives of their processes.
--
-- experiments/ (LoadTest): the request plan and the shared records (experiments/_load_test_common.py,
-- LoadTest.Plan and LoadTest.Records), and the three load tests, experiments/staleness_load_test.py
-- (LoadTest.LeaderFollower), experiments/leaderless_staleness_load_test.py (LoadTest.Leaderless) and
-- experiments/mq_staleness_load_test.py (LoadTest.MessageQueue). LoadTest.Worker has what the three
-- write down alike, and LoadTest.Runs their `run_load_test`.
--
-- experiments/run_comparison.py: Comparison is the sweep over the configurations of a strategy, with
-- the awaiting and stopping of processes; Comparison.Waits has the two polling loops and
-- Comparison.Clusters the processes of each configuration and the three sweeps. Reports is the ranking
-- and the two sections of the report, Reports.Printed what is printed, Reports.Notes the fixed texts,
-- and Reports.Whole `main`.
--
-- experiments/_results_doc.py (ResultsDoc): `replace_section` on the text of docs/results.md.
-- ResultsDoc.Document is the abstract view, an ordered dictionary from markers to texts, and the file
-- that shows one; every script writes its sections through it.
--
-- experiments/leaderless_boundary_case_demo.py and experiments/mq_lag_demo.py: Demos has what the two
-- share and the checks of their arguments, Demos.BoundaryCase and Demos.ConsumerLag their clusters,
-- runs and sections.
--
-- experiments/kafka_smoke_test.py: SmokeTest has its two checks, of the routing and of the order of
-- the messages, and SmokeTest.Broker what it does with the broker, and `main`.
--
-- Prelude has the numbers, lists, texts, dicts and sets of numbers that the parts share, and Tests
-- the runs on small inputs to which the theorems apply.
--
-- How the code is written down. A handler is a function from the state it may change to the new
-- state and its result; what it raises is a value. The event loop is an argument: a
-- Common.Waiting.Schedule says for every round of a waiting loop which tasks have finished and what
-- the clock reads, so a statement for all schedules holds for all orders of arrival. What a request
-- to another node comes to is an argument as well (Common.Replies). The waiting loops run on fuel,
-- one more than there are tasks, which is enough because each round that goes on has taken a task;
-- the polling loops of `reset_topic`, of the sweep and of the smoke test on one round for each tick
-- of the timeout and one more. Python's ints are integers; a time, a float in the code, is a
-- natural number of some small unit, and a timeout of a config an integer number of them, an
-- infinity or NaN. Code that is not in the repository is a parameter: httpx's answers,
-- `random.sample`, `random.Random`, `model_validate_json` and `model_dump_json`, and the answers of
-- the Kafka broker.
--
-- A text that is only compared is a string; one that is taken apart or put together is the list of its
-- code points (Prelude.Chars). A rate is an exact fraction; how Python prints a floating-point number,
-- and the time stamps, are parameters, and so is what starting a process comes to. Reading and writing
-- docs/results.md is text to text: the translation of newlines and the creation of the directory are
-- left to the file system.
--
-- Not modelled: the log lines and the texts of errors, the reading of YAML files, what argparse and
-- uvicorn do, the settings of the two clients' connection pools (common/replication_client.py), the
-- summary that a load test prints, with its percentile of gaps in floating point, and the JSONL logs.
pub mod Prelude
pub mod Common
pub mod LeaderFollower
pub mod Leaderless
pub mod MessageQueue
pub mod LoadTest
pub mod Comparison
pub mod SmokeTest
pub mod ResultsDoc
pub mod Reports
pub mod Demos
pub mod Tests
