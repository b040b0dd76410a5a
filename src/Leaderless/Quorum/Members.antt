-- ===== src/Leaderless/Quorum/Members.antt =====
-- Which nodes of a leaderless cluster (leaderless/node.py) a coordinator and its answered tasks
-- are: different ones, all of the config.
use kv_replication_lab.Prelude.{
  ℕ, suc, ◌≤◌, ◌≡◌, refl, sym, ap, subst, ◌∙◌, inl, inr, Bool, true, false, not, List, [], ◌∷◌,
  length, keep, In, Distinct, Within, arith, nat_eq, leb, Bool-cases, if◌then◌else◌,
}
use kv_replication_lab.Common.Waiting.{Outcome, returned}
use kv_replication_lab.Leaderless.Config.{Node, ClusterConfig, peers_excluding}
use kv_replication_lab.Leaderless.Config.Bounds.{ports}
use kv_replication_lab.Leaderless.Coordinator.{Task, tasks_of, select_read_peers}
use kv_replication_lab.Leaderless.Coordinator.Tasks.{ids, Answers, Part, Part-Within}

-- `random.sample(population, k)` of Python: elements of the population, from different places.
pub record IsSample (sample : List Node → ℕ → List Node) : Type 0 where
  pub from : (ps : List Node) (k : ℕ) (x : ℕ) → In x (ports (sample ps k)) → In x (ports ps)
  pub each_once : (ps : List Node) (k : ℕ) → Distinct (ports ps) → Distinct (ports (sample ps k))

module _ (own : ℕ) where
  abbrev is_other : Node → Bool
  is_other node = not (nat_eq node.port own)

  keep_step :
      (b : Bool) (x : ℕ) (n : Node) (ks ns : List Node)
      → nat_eq n.port own ≡ b
      → (In x (ports ks) → In x (ports ns) × (¬ (own ≡ x)))
      → In x (ports (if not b then n ∷ ks else ks))
      → In x (ports (n ∷ ns)) × (¬ (own ≡ x))
  keep_step true x n ks ns e ih m = let (k, ne) = ih m in (inr k, ne)
  keep_step false x n ks ns e ih (inl p) = (inl p, λ q. ground arith)
  keep_step false x n ks ns e ih (inr m) = let (k, ne) = ih m in (inr k, ne)

  In-ports-keep :
      (x : ℕ) (ns : List Node) → In x (ports (keep is_other ns)) → In x (ports ns) × (¬ (own ≡ x))
  In-ports-keep x [] m = absurd m
  In-ports-keep x (n ∷ ns) m =
      keep_step (nat_eq n.port own) x n (keep is_other ns) ns refl (In-ports-keep x ns) m

  Distinct-step :
      (b : Bool) (n : Node) (ks ns : List Node)
      → ¬ In n.port (ports ns)
      → (In n.port (ports ks) → In n.port (ports ns))
      → Distinct (ports ks)
      → Distinct (ports (if b then n ∷ ks else ks))
  Distinct-step true n ks ns fresh within d = (λ m. fresh (within m), d)
  Distinct-step false n ks ns fresh within d = d

  ports-keep-Distinct : (ns : List Node) → Distinct (ports ns) → Distinct (ports (keep is_other ns))
  ports-keep-Distinct [] d = tt
  ports-keep-Distinct (n ∷ ns) d =
      Distinct-step (is_other n) n (keep is_other ns) ns d.0 (λ m. (In-ports-keep n.port ns m).0)
        (ports-keep-Distinct ns d.1)

module _ {A : Type 0} (results : Node → Outcome (Bool × A)) where
  ids-tasks_of : (ps : List Node) → ids (tasks_of results ps) ≡ ports ps
  ids-tasks_of [] = refl
  ids-tasks_of (p ∷ ps) = ap (◌∷◌ p.port) (ids-tasks_of ps)

  pub In-tasks_of :
      (t : Task A) (ps : List Node)
      → In t (tasks_of results ps)
      → In t.peer ps × (t.result ≡ results t.peer)
  In-tasks_of t [] m = absurd m
  In-tasks_of t (p ∷ ps) (inl e) =
      (inl (ap (λ u. u.peer) e), ap (λ u. u.result) e ∙ ap results (sym (ap (λ u. u.peer) e)))
  In-tasks_of t (p ∷ ps) (inr m) = let (k, q) = In-tasks_of t ps m in (inr k, q)

pub Answers-In :
    {A : Type 0} (t : Task A) (ts : List (Task A)) (vs : List A)
    → Answers ts vs
    → In t ts
    → (v : A) × (t.result ≡ returned (true, v)) × In v vs
Answers-In t [] vs a m = absurd m
Answers-In t (u ∷ ts) [] a m = absurd a
Answers-In t (u ∷ ts) (v ∷ vs) a (inl e) = (v, ap (λ z. z.result) e ∙ a.0, inl refl)
Answers-In t (u ∷ ts) (v ∷ vs) a (inr m) = let (w, e, k) = Answers-In t ts vs a.1 m in (w, e, inr k)

-- The coordinator and the peers of some of its tasks, as a set of nodes.
pub record Members (config : ClusterConfig) (xs : List ℕ) (count : ℕ) : Type 0 where
  pub once : Distinct xs
  pub known : Within xs (ports config.nodes)
  pub size : count ≤ length xs

length-ids : {A : Type 0} (ts : List (Task A)) → length (ids ts) ≡ length ts
length-ids [] = refl
length-ids (t ∷ ts) = ap suc (length-ids ts)

module _ {A : Type 0} (config : ClusterConfig) (own : ℕ) (distinct : Distinct (ports config.nodes))
    (listed : In own (ports config.nodes)) (results : Node → Outcome (Bool × A)) (ps : List Node)
    (once : Distinct (ports ps)) (peers : Within (ports ps) (ports (peers_excluding config own)))
    (answered : List (Task A)) (part : Part answered (tasks_of results ps)) where
  answered_port : (x : ℕ) → In x (ids answered) → In x (ports config.nodes) × (¬ (own ≡ x))
  unfolding peers_excluding
  answered_port x m = In-ports-keep own x config.nodes (
      peers x (
        subst (In x) (ids-tasks_of results ps)
          (Part-Within answered (tasks_of results ps) part x m)))

  pub coordinator_Members :
      (count : ℕ) → count ≤ suc (length answered) → Members config (own ∷ ids answered) count
  coordinator_Members count enough = record {
    once = (
      λ m. (answered_port own m).1 refl,
      part.each_once (subst Distinct (sym (ids-tasks_of results ps)) once),
    );
    known = known;
    size = omega (arith, length-ids answered);
  }
    where
      known : Within (own ∷ ids answered) (ports config.nodes)
      known x (inl e) = subst (λ z. In z (ports config.nodes)) (sym e) listed
      known x (inr m) = (answered_port x m).0

pub peers-Distinct :
    (config : ClusterConfig) (own : ℕ)
    → Distinct (ports config.nodes)
    → Distinct (ports (peers_excluding config own))
unfolding peers_excluding
peers-Distinct config own d = ports-keep-Distinct own config.nodes d

module _ (sample : List Node → ℕ → List Node) (fair : IsSample sample) (ps : List Node)
    (k : ℕ) where
  pub select_read_peers-Within : Within (ports (select_read_peers sample ps k)) (ports ps)
  unfolding select_read_peers
  select_read_peers-Within x m = elim (Bool-cases (leb (length ps) k)) [
    | inl all ↦ rw (all, select_read_peers) at m
    | inr some_of ↦ fair.from ps k x (rw (some_of, select_read_peers) at m)
  ]

  pub select_read_peers-Distinct :
      Distinct (ports ps) → Distinct (ports (select_read_peers sample ps k))
  unfolding select_read_peers
  select_read_peers-Distinct d = elim (Bool-cases (leb (length ps) k)) [
    | inl all ↦ rw all d
    | inr some_of ↦ rw some_of (fair.each_once ps k d)
  ]
