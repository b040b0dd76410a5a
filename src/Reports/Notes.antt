-- ===== src/Reports/Notes.antt =====
-- The fixed texts of the two reports of experiments/run_comparison.py.
use kv_replication_lab.Prelude.{ℕ, ◌++◌}
use kv_replication_lab.Prelude.Chars.{Text, codes, decimal}

-- `DEFAULT_SEED`
abbrev pub default_seed : ℕ
default_seed = 42

-- `_METHODOLOGY_NOTES`
abbrev pub methodology_notes : Text
methodology_notes =
    codes
      "### Methodology notes\n\n**ack_required=0 vs. W=1,R=1 aren't apples-to-apples.** Both are each strategy's weakest/no-durability-wait config, but this harness gives them very different coordinator load: every leader-follower write goes through the one leader process (100% of write traffic, one process), while every leaderless write picks its coordinator by round robin across all 5 nodes (`NodeRotation` in `experiments/leaderless_staleness_load_test.py`, roughly 20% of write traffic per process). `ack_required=0`'s replicate fan-out is therefore concentrated on a single process; `W=1`'s architecturally-equivalent fan-out is split roughly five ways. This is a real, structural difference in what this harness measures for each config, not just \"there may be some asymmetry here\" -- it plausibly explains part of the gap between the two configs' results, independent of anything about the two replication strategies' actual protocols. See docs/AUDIT_FINDINGS.md's §9.\n\n**Runs are seeded (default seed: "
    ++ (decimal default_seed
        ++ (codes
              "; override with --seed).** Every config's full sequence of per-request decisions -- which key, read vs. write, which follower/read-coordinator -- is precomputed before that config's timed portion starts, so the same seed produces the exact same sequence of decisions on every run (see `experiments/_load_test_common.py`'s `generate_request_plan`). This does **not** make a config's results identical run to run: real request timing/scheduling -- whether a read's real arrival races a write's real in-flight replication -- is not seeded and cannot be made deterministic. Measured directly (3 runs each, same seed="
            ++ (decimal default_seed
                ++ (codes
                    ", nothing else changed): leader-follower `ack_required=2` ranged 13.12-13.31% staleness, 17-30 failures (elapsed 38.3-42.1s); leaderless `W=1,R=1` measured exactly 0.00% staleness, 0 failures, all three runs (elapsed 23.1-24.5s) -- consistent with `W=1,R=1` being a genuine structural blind spot at this scale (see the boundary-case-demo section) rather than something timing-sensitive enough to show variance here. Treat any single run's numbers, including the table above, as one sample from around that range, not an exact, repeatable figure -- tighter for some configs than others. See docs/AUDIT_FINDINGS.md's §8."))))

-- `_MQ_METHODOLOGY_NOTES`
abbrev pub mq_methodology_notes : Text
mq_methodology_notes =
    codes
      "### Methodology notes\n\n**This sweep's variable is load intensity (worker count), not an ack-wait knob.** Unlike `ack_required` or `W`/`R`, this strategy has no client-facing wait-and-ack setting to sweep -- every write acks as soon as Kafka confirms the message is durably logged, regardless of load (see `message_queue/producer.py`). Staleness here instead reflects how far a follower's consumer has fallen behind under load; `experiments/mq_staleness_load_test.py`'s `--workers` is what varies between rows, not a per-request override the way leaderless's `w`/`r` are.\n\n**Every row starts from a genuinely fresh topic, not just fresh processes.** `message_queue/topics.py`'s `reset_topic()` deletes and recreates the Kafka topic between configs (waiting for the deletion to actually complete first -- Kafka topic deletion is asynchronous), and every follower gets a config-specific node-id so its derived consumer-group id is unique to that row too -- see `experiments/run_comparison.py`'s `run_mq_configs` for why both matter, not just one.\n\n**Lag is sampled only on a detected-stale read, not on every read** (see `experiments/mq_staleness_load_test.py`'s own docstring for why) -- `lag_at_stale_read` in this sweep's raw JSONL logs is a per-event diagnostic sample, not a continuous measurement, and its absence from the table above is deliberate: aggregating it into a single summary number here would imply a precision this sampling strategy doesn't have.\n\n**Runs are seeded (default seed: "
    ++ (decimal default_seed
        ++ (codes
            "; override with --seed), with the same caveat as the main sweep above:** which decision each request makes is reproducible, real timing/scheduling is not, so treat any single run's numbers as one sample, not an exact repeatable figure."))
