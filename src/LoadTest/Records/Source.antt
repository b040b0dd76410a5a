-- ===== src/LoadTest/Records/Source.antt =====
-- The record of the latest confirmed writes, `SourceOfTruth` of experiments/_load_test_common.py.
use kv_replication_lab.Prelude.{
  ℕ, ◌≡◌, String, Option, none, some, arith, lookup-insert, ltb, eq_iff, ◌==◌, if◌then◌else◌,
}
use kv_replication_lab.LoadTest.Records.{SourceEntry, SourceOfTruth, record_write, snapshot}

abbrev pub newer_of : Option SourceEntry → SourceEntry → SourceEntry
newer_of none e = e
newer_of (some c) e = if ltb c.timestamp e.timestamp then e else c

module _ (self : SourceOfTruth) (key : String) (value timestamp : ℕ) where
  -- After a write is recorded, its key has the newer of the recorded entry and the write, the
  -- recorded one if they are equally old, and no other key has changed.
  pub record_write_lem :
      (other : String)
      → snapshot (record_write self key value timestamp) other ≡ (
          if key == other
          then some (newer_of (snapshot self key) (record { value = value; timestamp = timestamp }))
          else snapshot self other)
  unfolding record_write snapshot
  record_write_lem other = ground (
    arith,
    lookup-insert key other (record { value = value; timestamp = timestamp }) self.entries,
    eq_iff key other,
  )
