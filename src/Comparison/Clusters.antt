-- ===== src/Comparison/Clusters.antt =====
-- The clusters of experiments/run_comparison.py: the processes that are started for a configuration,
-- and the three sweeps over the configurations that the script has.
pub mod Groups
use kv_replication_lab.Prelude.{
  ℕ, suc, ◌+◌, Bool, true, false, ◌||◌, ◌&&◌, List, [], ◌∷◌, ◌++◌, map, leb, nat_eq, if◌then◌else◌,
}
use kv_replication_lab.Prelude.Chars.{Text, codes, decimal, lstrip, rstrip}
use kv_replication_lab.Common.Waiting.{Outcome, returned, raised}
use kv_replication_lab.LoadTest.Runs.{Result}
use kv_replication_lab.Comparison.{
  Process, SpawnedNode, Description, Tried, Swept, leader_follower_config, leaderless_config,
  mq_config, sweep,
}

abbrev pub local_host : Text
local_host = codes "127.0.0.1"

abbrev pub leader_port : ℕ
leader_port = 8000

abbrev pub follower_ports : List ℕ
follower_ports = 8001 ∷ 8002 ∷ 8003 ∷ 8004 ∷ []

abbrev pub leaderless_node_ports : List ℕ
leaderless_node_ports = 8101 ∷ 8102 ∷ 8103 ∷ 8104 ∷ 8105 ∷ []

abbrev pub producer_port : ℕ
producer_port = 8200

abbrev pub mq_follower_ports : List ℕ
mq_follower_ports = 8201 ∷ 8202 ∷ 8203 ∷ 8204 ∷ []

abbrev pub ack_required_sweep : List ℕ
ack_required_sweep = 0 ∷ 1 ∷ 2 ∷ 3 ∷ 4 ∷ []

-- A label with W and R
pub record Quorums : Type 0 where
  pub label : Text
  pub w : ℕ
  pub r : ℕ

abbrev quorums : Text → ℕ → ℕ → Quorums
quorums label w r = record { label = label; w = w; r = r }

abbrev pub leaderless_wr_sweep : List Quorums
leaderless_wr_sweep =
    quorums (codes "W=1, R=1") 1 1
    ∷ quorums (codes "W=1, R=5") 1 5
    ∷ quorums (codes "W=5, R=1") 5 1
    ∷ quorums (codes "W=3, R=3") 3 3
    ∷ quorums (codes "W=2, R=3") 2 3
    ∷ []

abbrev pub mq_worker_sweep : List ℕ
mq_worker_sweep = 1 ∷ 2 ∷ 5 ∷ []

-- `str.isalnum` of an ASCII character
abbrev pub is_alnum : ℕ → Bool
is_alnum c = (leb 48 c && leb c 57) || (leb 65 c && leb c 90) || (leb 97 c && leb c 122)

abbrev pub is_underscore : ℕ → Bool
is_underscore c = nat_eq c 95

-- `_slug`
unfoldable pub slug : Text → Text
slug label =
    rstrip is_underscore (lstrip is_underscore (map (λ c. if is_alnum c then c else 95) label))

-- The arguments that every process has
abbrev pub node_args : (node_id : Text) (port : ℕ) → List Text
node_args node_id port = codes "--node-id" ∷ node_id ∷ codes "--port" ∷ decimal port ∷ []

abbrev pub ack_label : ℕ → Text
ack_label ack_required = codes "lf_ack" ++ decimal ack_required

abbrev pub workers_label : ℕ → Text
workers_label num_workers = codes "workers=" ++ decimal num_workers

-- The node id of a follower, which names its consumer group
unfoldable pub follower_id : (num_workers i : ℕ) → Text
unfolding slug
follower_id num_workers i =
    codes "follower" ++ (decimal i ++ (codes "_" ++ slug (workers_label num_workers)))

-- What the script depends on: what starting a process comes to (its log file is named by the label,
-- and each label is used once), and the waits of Comparison.Waits.
pub record Surroundings : Type 0 where
  pub popen : (label : Text) (command : List Text) → Outcome Process
  pub wait_healthy : List SpawnedNode → Outcome (Unit {0})
  pub wait_assigned : List SpawnedNode → Outcome (Unit {0})
  pub reset_topic : (num_workers : ℕ) → Outcome (Unit {0})

-- What the load test of a configuration comes to.
pub record LoadTests {ℓ} (A : Type ℓ) : Type ℓ where
  pub result : A → Result
  pub elapsed : A → ℕ
  pub reason : A → Text

-- Of each port, and its number
abbrev pub enumerate : {A : Type 0} → (ℕ → ℕ → A) → ℕ → List ℕ → List A
enumerate f i [] = []
enumerate f i (port ∷ ports) = f i port ∷ enumerate f (i + 1) ports

module _ (s : Surroundings) where
  abbrev started : (label host : Text) (port : ℕ) → Outcome Process → Outcome SpawnedNode
  started label host port raised = raised
  started label host port (returned proc) = returned (record {
    label = label;
    host = host;
    port = port;
    proc = proc;
    log_path = codes "experiments/output/run_comparison_process_logs/" ++ (label ++ codes ".log");
  })

  -- `_spawn`
  unfoldable pub spawn :
      (name : Text) (args : List Text) (label host : Text) (port : ℕ) → Outcome SpawnedNode
  spawn name args label host port =
      started label host port (s.popen label (codes "-m" ∷ name ∷ args))

  abbrev pub leader_follower_attempt : LoadTests ℕ → ℕ → Tried
  leader_follower_attempt tests ack_required =
      leader_follower_config
        (enumerate
          (λ i port.
            spawn (codes "leader_follower.follower")
              (node_args (codes "follower" ++ decimal i) port)
              (ack_label ack_required ++ (codes "_follower" ++ decimal i)) local_host port)
          1 follower_ports)
        (spawn (codes "leader_follower.leader")
          (node_args (codes "leader") leader_port
            ++ (codes "--ack-required" ∷ decimal ack_required ∷ []))
          (ack_label ack_required ++ codes "_leader") local_host leader_port)
        s.wait_healthy (tests.result ack_required)

  abbrev pub describe_ack : LoadTests ℕ → ℕ → Description
  describe_ack tests ack_required = record {
    strategy = codes "leader-follower";
    label = codes "ack_required=" ++ decimal ack_required;
    elapsed = tests.elapsed ack_required;
    reason = tests.reason ack_required;
  }

  unfoldable pub run_leader_follower_configs : LoadTests ℕ → Swept
  unfolding sweep leader_follower_config spawn
  run_leader_follower_configs tests =
      sweep (describe_ack tests) (leader_follower_attempt tests) ack_required_sweep

  abbrev pub leaderless_attempt : LoadTests Quorums → Quorums → Tried
  leaderless_attempt tests q =
      leaderless_config
        (enumerate
          (λ i port.
            spawn (codes "leaderless.node") (node_args (codes "node" ++ decimal i) port)
              (codes "leaderless_" ++ (slug q.label ++ (codes "_node" ++ decimal i))) local_host
              port)
          1 leaderless_node_ports)
        s.wait_healthy (tests.result q)

  abbrev pub describe_quorums : LoadTests Quorums → Quorums → Description
  describe_quorums tests q = record {
    strategy = codes "leaderless";
    label = q.label;
    elapsed = tests.elapsed q;
    reason = tests.reason q;
  }

  unfoldable pub run_leaderless_configs : LoadTests Quorums → Swept
  unfolding sweep leaderless_config spawn slug
  run_leaderless_configs tests =
      sweep (describe_quorums tests) (leaderless_attempt tests) leaderless_wr_sweep

  abbrev pub mq_attempt : LoadTests ℕ → ℕ → Tried
  mq_attempt tests num_workers =
      mq_config (s.reset_topic num_workers)
        (enumerate
          (λ i port.
            spawn (codes "message_queue.follower") (node_args (follower_id num_workers i) port)
              (codes "mq_"
                ++ (slug (workers_label num_workers) ++ (codes "_follower" ++ decimal i)))
              local_host port)
          1 mq_follower_ports)
        (spawn (codes "message_queue.producer")
          (node_args (codes "producer_" ++ slug (workers_label num_workers)) producer_port)
          (codes "mq_" ++ (slug (workers_label num_workers) ++ codes "_producer")) local_host
          producer_port)
        s.wait_healthy s.wait_assigned (tests.result num_workers)

  abbrev pub describe_workers : LoadTests ℕ → ℕ → Description
  describe_workers tests num_workers = record {
    strategy = codes "message-queue";
    label = workers_label num_workers;
    elapsed = tests.elapsed num_workers;
    reason = tests.reason num_workers;
  }

  unfoldable pub run_mq_configs : LoadTests ℕ → Swept
  unfolding sweep mq_config spawn slug follower_id
  run_mq_configs tests = sweep (describe_workers tests) (mq_attempt tests) mq_worker_sweep
