-- ===== src/LoadTest/Plan.antt =====
-- The plan of a load test and its split among the workers (experiments/_load_test_common.py).
--
-- `random.Random` is a parameter: a seed gives a generator, and a draw gives a value and the next
-- state of the generator.
pub mod Split
use kv_replication_lab.Prelude.{
  ℕ, zero, suc, ◌+◌, ◌<◌, ◌≡◌, refl, ap, subst, String, Bool, true, false, Option, none, some, List,
  [], ◌∷◌, All, length, take, drop, ltb, arith, if◌then◌else◌, Bool-cases,
}
use Prim.Native.Nat.{◌/◌, ◌%◌}

pub record RequestPlan : Type 0 where
  pub is_read : Bool
  pub key : String
  pub read_target_index : Option ℕ

-- A read names one of the targets, a write none.
abbrev pub HasTarget : ℕ → RequestPlan → Type 0
HasTarget n p =
    if p.is_read
    then ((i : ℕ) × (p.read_target_index ≡ some i) × (i < n))
    else (p.read_target_index ≡ none)

-- What the code uses of `random.Random`.
pub record Rng (G : Type 0) : Type 0 where
  pub seeded : ℕ → G
  pub getrandbits : ℕ → G → ℕ × G
  pub below_fraction : G → Bool × G
  pub choice : List String → G → String × G
  pub randrange : ℕ → G → ℕ × G

module _ {G : Type 0} (rng : Rng G) where
  abbrev draw_seeds : ℕ → G → List ℕ
  draw_seeds zero deriver = []
  draw_seeds (suc n) deriver =
      let (bits, deriver') = rng.getrandbits 64 deriver in bits ∷ draw_seeds n deriver'

  -- `_derive_seeds`
  unfoldable pub derive_seeds : (seed count : ℕ) → List ℕ
  derive_seeds seed count = draw_seeds count (rng.seeded seed)

  abbrev draw_target : Bool → ℕ → G → Option ℕ × G
  draw_target false num_read_targets target_rng = (none, target_rng)
  draw_target true num_read_targets target_rng =
      let (index, target_rng') = rng.randrange num_read_targets target_rng in
      (some index, target_rng')

  -- The loop of `generate_request_plan`, over the three generators.
  abbrev plan_loop : ℕ → List String → ℕ → G → G → G → List RequestPlan
  plan_loop zero keys num_read_targets mix_rng key_rng target_rng = []
  plan_loop (suc n) keys num_read_targets mix_rng key_rng target_rng =
      let (is_read, mix_rng') = rng.below_fraction mix_rng in
      let (key, key_rng') = rng.choice keys key_rng in
      let (read_target_index, target_rng') = draw_target is_read num_read_targets target_rng in
      record { is_read = is_read; key = key; read_target_index = read_target_index }
      ∷ plan_loop n keys num_read_targets mix_rng' key_rng' target_rng'

  -- The n-th of the derived seeds, of which there are always three.
  abbrev seed_at : List ℕ → ℕ → ℕ
  seed_at [] n = 0
  seed_at (x ∷ xs) zero = x
  seed_at (x ∷ xs) (suc n) = seed_at xs n

  unfoldable pub generate_request_plan :
      (total_requests : ℕ) (keys : List String) (num_read_targets seed : ℕ) → List RequestPlan
  unfolding derive_seeds
  generate_request_plan total_requests keys num_read_targets seed =
      let seeds = derive_seeds seed 3 in
      plan_loop total_requests keys num_read_targets (rng.seeded (seed_at seeds 0))
        (rng.seeded (seed_at seeds 1)) (rng.seeded (seed_at seeds 2))

  module _ (n : ℕ) (in_range : (g : G) → (rng.randrange n g).0 < n) where
    plan_loop_lem :
        (total : ℕ) (keys : List String) (a b c : G)
        → (length (plan_loop total keys n a b c) ≡ total)
          × All (HasTarget n) (plan_loop total keys n a b c)
    plan_loop_lem zero keys a b c = (refl, tt)
    plan_loop_lem (suc t) keys a b c =
        let (len, all) = plan_loop_lem t keys _ _ _ in
        (ap suc len, (target (rng.below_fraction a).0, all))
      where
        target :
            (is_read : Bool)
            → HasTarget n (record {
              is_read = is_read;
              key = (rng.choice keys b).0;
              read_target_index = (draw_target is_read n c).0;
            })
        target true = ((rng.randrange n c).0, refl, in_range c)
        target false = refl

    -- The plan has as many requests as asked for; each read names a target that there is, and no
    -- write names one, if `randrange` draws below its bound.
    pub generate_request_plan_lem :
        (total seed : ℕ) (keys : List String)
        → (length (generate_request_plan total keys n seed) ≡ total)
          × All (HasTarget n) (generate_request_plan total keys n seed)
    unfolding generate_request_plan
    generate_request_plan_lem total seed keys = plan_loop_lem total keys _ _ _

module _ {A : Type 0} (plan : List A) (base remainder : ℕ) where
  abbrev pub chunk_size : ℕ → ℕ
  chunk_size i = base + (if ltb i remainder then 1 else 0)

  -- The loop of `split_plan`, from a worker on.
  abbrev pub split_loop : (workers i start : ℕ) → List (List A)
  split_loop zero i start = []
  split_loop (suc w) i start =
      take (chunk_size i) (drop start plan) ∷ split_loop w (i + 1) (start + chunk_size i)

-- `divmod` of Python; it raises for no workers, which the callers never ask for.
unfoldable pub split_plan : {A : Type 0} → List A → (num_workers : ℕ) → List (List A)
split_plan plan num_workers =
    split_loop plan (length plan / num_workers) (length plan % num_workers) num_workers 0 0
