-- ===== src/Demos/Arguments.antt =====
-- The arguments of the demonstrations and whom they slow down.
use kv_replication_lab.Prelude.{
  ℕ, zero, suc, ap, if_cases, ◌≤◌, ◌≡◌, refl, Bool, true, false, Option, none, some, List, length,
  keep, leb, arith,
}
use kv_replication_lab.Prelude.Int.{ℤ, pos, negsuc, ◌≤ℤ◌}
use kv_replication_lab.Demos.{
  Given, Args, Surroundings, Launch, checked, boundary_parse_args, lag_parse_args,
}
use kv_replication_lab.Demos.BoundaryCase.{boundary_launches}
use kv_replication_lab.Demos.ConsumerLag.{lag_launches}

-- A launch has more arguments than `--node-id` and `--port` with theirs only if it is slowed down.
abbrev pub is_slowed : Launch → Bool
is_slowed launch = leb 5 (length launch.args)

-- The launches that are slowed down are as many as the arguments say.
abbrev pub Slows : List Launch → ℤ → Type 0
Slows launches count = pos (length (keep is_slowed launches)) ≡ count

-- What is refused for a cluster of some size, and what is accepted.
abbrev pub Checks : (most : ℕ) → (Args → List Launch) → Given → Option Args → Type 0
Checks most launches given none = ¬ (
    (pos 0 ≤ℤ given.delay_ms) × (pos 0 ≤ℤ given.delayed_count) × (given.delayed_count ≤ℤ pos most))
Checks most launches given (some args) =
    (pos args.delay_ms ≡ given.delay_ms)
    × (pos 0 ≤ℤ given.delayed_count)
    × (given.delayed_count ≤ℤ pos most)
    × (pos (length (keep is_slowed (launches args))) ≡ given.delayed_count)

abbrev args_of : (d n : ℕ) → ℤ → Args
args_of d n w = record { delay_ms = d; delayed_count = n; workers = w }

checked-Checks :
    (most : ℕ) (launches : Args → List Launch)
    → ((d n : ℕ) (w : ℤ) → n ≤ most → length (keep is_slowed (launches (args_of d n w))) ≡ n)
    → (given : Given)
    → Checks most launches given (checked most given.delay_ms given.delayed_count given.workers)
checked-Checks most launches slows given =
    by_numbers given.delay_ms given.delayed_count given.workers
  where
    fits : (n : ℕ) → leb n most ≡ true → n ≤ most
    fits n h = ground (arith, h)

    few_le : (n : ℕ) → leb n most ≡ true → pos n ≤ℤ pos most
    few_le n h = omega (arith, fits n h)

    many_not : (n : ℕ) → leb n most ≡ false → ¬ (pos n ≤ℤ pos most)
    many_not n h k = ground (arith, h, k)

    by_numbers :
        (d n w : ℤ)
        → Checks most launches
            (record { delay_ms = d; delayed_count = n; workers = w })
            (checked most d n w)
    by_numbers (negsuc d) n w = λ (h, _, _). omega (arith, h)
    by_numbers (pos d) (negsuc n) w = λ (_, h, _). omega (arith, h)
    by_numbers (pos d) (pos n) w =
        if_cases
          (Checks most launches (record { delay_ms = pos d; delayed_count = pos n; workers = w }))
          (leb n most) _ _
          (λ few. (refl, omega arith, few_le n few, ap pos (slows d n w (fits n few))))
          (λ many. λ (_, _, h). many_not n many h)

boundary_slows :
    (s : Surroundings) (d n : ℕ) (w : ℤ)
    → n ≤ 5
    → length (keep is_slowed (boundary_launches s (args_of d n w))) ≡ n
boundary_slows s d zero w h = refl
boundary_slows s d (suc zero) w h = refl
boundary_slows s d (suc (suc zero)) w h = refl
boundary_slows s d (suc (suc (suc zero))) w h = refl
boundary_slows s d (suc (suc (suc (suc zero)))) w h = refl
boundary_slows s d (suc (suc (suc (suc (suc zero))))) w h = refl
boundary_slows s d (suc (suc (suc (suc (suc (suc n)))))) w h = absurd (omega (arith, h))

lag_slows :
    (s : Surroundings) (d n : ℕ) (w : ℤ)
    → n ≤ 4
    → length (keep is_slowed (lag_launches s (args_of d n w))) ≡ n
lag_slows s d zero w h = refl
lag_slows s d (suc zero) w h = refl
lag_slows s d (suc (suc zero)) w h = refl
lag_slows s d (suc (suc (suc zero))) w h = refl
lag_slows s d (suc (suc (suc (suc zero)))) w h = refl
lag_slows s d (suc (suc (suc (suc (suc n))))) w h = absurd (omega (arith, h))

module _ (s : Surroundings) (given : Given) where
  -- The boundary-case demonstration accepts its arguments just if the delay is not negative and the
  -- number of delayed nodes is between 0 and 5; then it starts that many of its five nodes with the
  -- delay.
  pub boundary_parse_args-Checks : Checks 5 (boundary_launches s) given (boundary_parse_args given)
  unfolding boundary_parse_args
  boundary_parse_args-Checks = checked-Checks 5 (boundary_launches s) (boundary_slows s) given

  -- The same for the consumer lag and its four followers.
  pub lag_parse_args-Checks : Checks 4 (lag_launches s) given (lag_parse_args given)
  unfolding lag_parse_args
  lag_parse_args-Checks = checked-Checks 4 (lag_launches s) (lag_slows s) given
