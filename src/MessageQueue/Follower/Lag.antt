-- ===== src/MessageQueue/Follower/Lag.antt =====
-- The lag that a follower reports (`_compute_lag` and `get_lag` of message_queue/follower.py).
use kv_replication_lab.Prelude.{
  ℕ, ◌+◌, ◌-◌, ◌≤◌, ◌≡◌, refl, sym, ap, ◌∙◌, inl, inr, String, Option, some, List, [], ◌∷◌, map, In,
  arith,
}
use kv_replication_lab.Prelude.Int.{pos, ◌+ℤ◌, ◌-ℤ◌}
use kv_replication_lab.Common.Server.{ok}
use kv_replication_lab.MessageQueue.Follower.{
  LagResponse, or_zero, insert_partition, sorted, partition_lag, compute_lag, sum_lag, Consumer,
  get_lag,
}

module _ (end_offsets : ℕ → ℕ) (committed : ℕ → Option ℕ) where
  -- The number of messages of some partitions that are not committed.
  abbrev pub behind : List ℕ → ℕ
  behind [] = 0
  behind (p ∷ ps) = (end_offsets p - or_zero (committed p)) + behind ps

  behind-insert : (p : ℕ) (ps : List ℕ) → behind (insert_partition p ps) ≡ behind (p ∷ ps)
  behind-insert p [] = refl
  behind-insert p (q ∷ qs) = ground (arith, behind-insert p qs)

  behind-sorted : (ps : List ℕ) → behind (sorted ps) ≡ behind ps
  unfolding sorted
  behind-sorted [] = refl
  behind-sorted (p ∷ ps) =
      behind-insert p (sorted ps)
      ∙ ap (λ n. (end_offsets p - or_zero (committed p)) + n) (behind-sorted ps)

  add_pos : (a b : ℕ) → pos a +ℤ pos b ≡ pos (a + b)
  unfolding ◌+ℤ◌
  add_pos a b = ground arith

  sub_pos : (a b : ℕ) → b ≤ a → pos a -ℤ pos b ≡ pos (a - b)
  unfolding ◌-ℤ◌
  sub_pos a b le = ground arith

  module _ (within : (p : ℕ) → or_zero (committed p) ≤ end_offsets p) where
    sum_lag-map :
        (ps : List ℕ) → sum_lag (map (partition_lag end_offsets committed) ps) ≡ pos (behind ps)
    sum_lag-map [] = refl
    sum_lag-map (p ∷ ps) =
        rw (sum_lag-map ps, sub_pos (end_offsets p) (or_zero (committed p)) (within p))
          (add_pos (end_offsets p - or_zero (committed p)) (behind ps))

    compute_lag-sum :
        (ps : List ℕ) → sum_lag (compute_lag end_offsets committed ps) ≡ pos (behind ps)
    unfolding compute_lag
    compute_lag-sum [] = refl
    compute_lag-sum (p ∷ ps) = sum_lag-map (sorted (p ∷ ps)) ∙ ap pos (behind-sorted (p ∷ ps))

    behind_none :
        (p : ℕ) (ps : List ℕ) → behind ps ≡ 0 → In p ps → end_offsets p ≡ or_zero (committed p)
    behind_none p [] e m = absurd m
    behind_none p (q ∷ qs) e (inl s) = rw s (omega (arith, within q, e))
    behind_none p (q ∷ qs) e (inr m) = behind_none p qs (omega (arith, e)) m

module _ (node_id : String) (consumer : Consumer)
    (within : (p : ℕ) → or_zero (consumer.committed p) ≤ consumer.end_offsets p) where
  -- Where no committed offset lies beyond the end of its partition, the total lag is the number of
  -- messages of the assigned partitions that are not committed; if it is zero, the committed offset
  -- of each of them is the end.
  pub get_lag_total :
      (r : LagResponse) × (get_lag node_id (some consumer) ≡ ok r)
      × (r.total_lag ≡ pos (behind consumer.end_offsets consumer.committed consumer.assignment))
      × (r.total_lag ≡ pos 0
          → (p : ℕ) → In p consumer.assignment
          → consumer.end_offsets p ≡ or_zero (consumer.committed p))
  unfolding get_lag
  get_lag_total =
      let total =
        compute_lag-sum consumer.end_offsets consumer.committed within consumer.assignment in
      (
        _,
        refl,
        total,
        λ e p m.
            behind_none consumer.end_offsets consumer.committed within p consumer.assignment
              (zero_of (sym total ∙ e)) m,
      )
    where
      zero_of : {n : ℕ} → pos n ≡ pos 0 → n ≡ 0
      zero_of e = ground arith
