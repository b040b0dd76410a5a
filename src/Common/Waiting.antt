-- ===== src/Common/Waiting.antt =====
-- `asyncio.wait(pending, timeout=..., return_when=FIRST_COMPLETED)`, as the loops of
-- leader_follower/leader.py and leaderless/node.py use it.
--
-- Which tasks have finished when a wait returns, and what the loop's clock reads, is decided by the
-- event loop: a `Schedule` gives both, for every round of the waiting loop. Any set of the pending
-- tasks may be finished, none if the wait's timeout fired.
use kv_replication_lab.Prelude.{
  ℕ, zero, suc, ◌+◌, ◌<◌, ◌≡◌, refl, Bool, true, false, not, List, [], ◌∷◌, length, keep, is_empty,
  arith,
}

pub record Schedule (T : Type 0) : Type 0 where
  pub now : ℕ → ℕ
  pub finished : ℕ → T → Bool

-- What `task.result()` does.
pub data Outcome {ℓ} (A : Type ℓ) : Type ℓ where
  returned : A → Outcome A
  raised : Outcome A

module _ {T : Type 0} (s : Schedule T) where
  unfoldable pub wait_done : ℕ → List T → List T
  wait_done i pending = keep (s.finished i) pending

  unfoldable pub wait_pending : ℕ → List T → List T
  wait_pending i pending = keep (λ t. not (s.finished i t)) pending

  -- What is pending after some rounds of waiting, from a round on.
  abbrev pub pending_after : (first rounds : ℕ) → List T → List T
  pending_after i zero ts = ts
  pending_after i (suc d) ts = pending_after (i + 1) d (wait_pending i ts)

module _ {T : Type 0} (s : Schedule T) where
  -- Where no task has finished, all stay pending.
  pub wait_none :
      (i : ℕ) (ts : List T) → is_empty (wait_done s i ts) ≡ true → wait_pending s i ts ≡ ts
  unfolding wait_done wait_pending
  wait_none i [] h = refl
  wait_none i (t ∷ ts) h = ground (arith, wait_none i ts)

  wait-length :
      (i : ℕ) (ts : List T) → length (wait_done s i ts) + length (wait_pending s i ts) ≡ length ts
  unfolding wait_done wait_pending
  wait-length i [] = refl
  wait-length i (t ∷ ts) = ground (arith, wait-length i ts)

  -- A wait that reports a finished task leaves fewer tasks pending.
  pub wait_shrinks :
      (i : ℕ) (ts : List T)
      → is_empty (wait_done s i ts) ≡ false
      → length (wait_pending s i ts) < length ts
  wait_shrinks i ts h = shrink (wait_done s i ts) h (wait-length i ts)
    where
      shrink :
          (ds : List T)
          → is_empty ds ≡ false
          → length ds + length (wait_pending s i ts) ≡ length ts
          → length (wait_pending s i ts) < length ts
      shrink [] h e = ground arith
      shrink (d ∷ ds) h e = omega arith
