-- ===== src/LoadTest/Leaderless/Equivalence.antt =====
-- The workers of the leaderless load test (experiments/leaderless_staleness_load_test.py) beside
-- those of the leader-follower test (experiments/staleness_load_test.py).
use Prim.Native.Nat.{◌%◌}
use native.Mathlib.Nat.{mod-lt}
use kv_replication_lab.Prelude.{
  ℕ, zero, suc, ◌≡◌, refl, ap, sym, subst, ◌∙◌, String, true, false, inl, inr, Option, none, some,
  List, [], ◌∷◌, map, All, length, arith, ◌<◌, get_elem?, is_empty, Bool-cases,
}
use kv_replication_lab.LeaderFollower.Config.{Follower}
use kv_replication_lab.Leaderless.Config.{Node}
use kv_replication_lab.LoadTest.LeaderFollower
use kv_replication_lab.LoadTest.Leaderless.{
  NodeRotation, next_node, ClusterShared, request_write, do_write, do_read, run_item, run_worker,
}
use kv_replication_lab.LoadTest.Plan.{RequestPlan}
use kv_replication_lab.LoadTest.Records.{SourceEntry, Stats, new_stats, next_value}
use kv_replication_lab.LoadTest.Worker.{Shared, Moment, finish_write, count_request, target_of}
use kv_replication_lab.LoadTest.Worker.Names.{
  unnamed, finish_read-Same, finish_write-Same, count_request-Same,
}
use kv_replication_lab.LoadTest.Worker.Simulation.{
  with_moment, Same, Agree, Simulates, run_items-map, run_items-Agree,
}

-- The same happens in both tests: the same answers at the same time, and the same to the objects
-- that both have. The list of nodes in a rotation is never assigned again.
pub record Twin (m : Moment ClusterShared) (m' : Moment Shared) : Type 0 where
  pub before : (s : ClusterShared) → (m.before s).common ≡ m'.before s.common
  pub during : (s : ClusterShared) → (m.during s).common ≡ m'.during s.common
  pub kept_before : (s : ClusterShared) → (m.before s).rotation.nodes ≡ s.rotation.nodes
  pub kept_during : (s : ClusterShared) → (m.during s).rotation.nodes ≡ s.rotation.nodes
  pub write_answer : m.write_answer ≡ m'.write_answer
  pub read_answer : m.read_answer ≡ m'.read_answer
  pub now : m.now ≡ m'.now

abbrev pub HasNodes : ClusterShared → Type 0
HasNodes s = is_empty s.rotation.nodes ≡ false

abbrev Both : {A B : Type 0} → Option A → Option B → Type 0
Both none none = Unit
Both (some a) (some b) = Unit
Both none (some b) = ⊥
Both (some a) none = ⊥

none_is_not_some : (n : ℕ) → ¬ (0 ≡ suc n)
none_is_not_some n h = omega (arith, h)

same_element :
    {A B : Type 0} (xs : List A) (ys : List B)
    → length xs ≡ length ys
    → (i : ℕ) → Both (get_elem? xs i) (get_elem? ys i)
same_element [] [] h i = tt
same_element [] (y ∷ ys) h i = absurd (none_is_not_some (length ys) h)
same_element (x ∷ xs) [] h i = absurd (none_is_not_some (length xs) (sym h))
same_element (x ∷ xs) (y ∷ ys) h zero = tt
same_element (x ∷ xs) (y ∷ ys) h (suc i) = same_element xs ys (omega (arith, h)) i

same_target :
    {A B : Type 0} (xs : List A) (ys : List B)
    → length xs ≡ length ys
    → (i : Option ℕ) → Both (target_of xs i) (target_of ys i)
same_target xs ys h none = tt
same_target xs ys h (some i) = same_element xs ys h i

element-below :
    {A : Type 0} (xs : List A) (i : ℕ) → i < length xs → (x : A) × (get_elem? xs i ≡ some x)
element-below [] i h = absurd (not_below_zero i h)
  where
    not_below_zero : (i : ℕ) → ¬ (i < 0)
    not_below_zero i h = omega (arith, h)
element-below (x ∷ xs) zero h = (x, refl)
element-below (x ∷ xs) (suc i) h = element-below xs i (omega (arith, h))

next_node-some :
    (r : NodeRotation)
    → is_empty r.nodes ≡ false
    → ((n : Node) × ((next_node r).1 ≡ some n)) × ((next_node r).0.nodes ≡ r.nodes)
unfolding next_node
next_node-some r h = rw h (chosen r.nodes h, refl)
  where
    chosen :
        (nodes : List Node)
        → is_empty nodes ≡ false
        → (n : Node) × (get_elem? nodes (r.index % length nodes) ≡ some n)
    chosen [] h = cc h
    chosen (n ∷ ns) h = element-below (n ∷ ns) _ (mod-lt r.index (some_node (length ns)))
      where
        some_node : (k : ℕ) → 0 < suc k
        some_node k = omega arith

module _ (name_of : Node → String) (name_of' : Follower → String) (leader : String)
    (m : Moment ClusterShared) (m' : Moment Shared) (twin : Twin m m') (s t : Stats)
    (same : unnamed s ≡ unnamed t) (key : String) where
  read_twice :
      (c : Option Node) (d : Option Follower)
      → Both c d
      → (e : Option SourceEntry)
      → Same unnamed
          (do_read m.now name_of c m.read_answer e s key)
          (LeaderFollower.read_at name_of' d m'.now m'.read_answer e t key)
  unfolding do_read LeaderFollower.do_read
  read_twice none none b e = tt
  read_twice none (some d) b e = elim b [ ]
  read_twice (some c) none b e = elim b [ ]
  read_twice (some c) (some d) b none = same
  read_twice (some c) (some d) b (some e) =
      rw (twin.now, twin.read_answer)
        (finish_read-Same s t same (name_of c) (name_of' d) key m'.now "coordinator_node_id"
          "follower_node_id" e m'.read_answer)

  asked_twice :
      (shared : ClusterShared) (value : ℕ) (c : Node)
      → HasNodes shared
      → Agree {S = ClusterShared}
          (λ x. x.common)
          HasNodes
          unnamed
          (request_write m name_of shared value s key (some c))
          (finish_write (m'.during shared.common) leader m'.now t key value m'.write_answer)
  asked_twice shared value c h =
      let (to_shared, to_stats) =
        finish_write-Same s t same (name_of c) leader key m'.now (m'.during shared.common) value
          m'.write_answer in
      rw (twin.during shared, twin.now, twin.write_answer)
        (to_shared, to_stats, ap is_empty (twin.kept_during shared) ∙ h)

  write_twice :
      (shared : ClusterShared)
      → HasNodes shared
      → Agree {S = ClusterShared}
          (λ x. x.common)
          HasNodes
          unnamed
          (do_write m name_of shared s key)
          (LeaderFollower.do_write m' leader shared.common t key)
  unfolding do_write LeaderFollower.do_write
  write_twice shared h =
      let ((c, picked), kept) = next_node-some shared.rotation h in
      rw picked (
        asked_twice
          (record {
            common = record shared.common { counter = (next_value shared.common.counter).0 };
            rotation = (next_node shared.rotation).0;
          })
          (next_value shared.common.counter).1 c (ap is_empty kept ∙ h))

module _ (nodes : List Node) (followers : List Follower) (name_of : Node → String)
    (name_of' : Follower → String) (leader : String)
    (as_many : length nodes ≡ length followers) where
  item_twice :
      (item : RequestPlan) (m : Moment ClusterShared) (m' : Moment Shared)
      → Twin m m'
      → Simulates
          (λ (x : ClusterShared). x.common)
          HasNodes
          unnamed
          (run_item nodes name_of)
          (LeaderFollower.run_item followers name_of' leader)
          (item, (m, m'))
  unfolding run_item LeaderFollower.run_item
  item_twice item m m' twin shared shared' s t p h same =
      subst
        (λ x.
          Agree {S = ClusterShared} (λ y. y.common) HasNodes unnamed
            (run_item nodes name_of m shared s item)
            (LeaderFollower.run_item followers name_of' leader m' x t item))
        p
        (elim (Bool-cases item.is_read) [
          | inl read ↦
              rw (read, sym (twin.before shared))
                (
                  twin.during (m.before shared),
                  read_twice name_of name_of' leader m m' twin (count_request true s)
                      (count_request true t) (count_request-Same true s t same) item.key _ _
                      (same_target nodes followers as_many item.read_target_index) _,
                  ap is_empty (twin.kept_during (m.before shared) ∙ twin.kept_before shared) ∙ h,
                )
          | inr write ↦
              rw (write, sym (twin.before shared))
                (write_twice name_of name_of' leader m m' twin (count_request false s)
                  (count_request false t) (count_request-Same false s t same) item.key
                  (m.before shared) (ap is_empty (twin.kept_before shared) ∙ h))
        ])

  items_twice :
      (items : List (RequestPlan × (Moment ClusterShared × Moment Shared)))
      → All (λ p. Twin p.1.0 p.1.1) items
      → All
          (Simulates
            (λ (x : ClusterShared). x.common)
            HasNodes
            unnamed
            (run_item nodes name_of)
            (LeaderFollower.run_item followers name_of' leader))
          items
  items_twice [] h = tt
  items_twice ((item, (m, m')) ∷ rest) (h, hs) = (item_twice item m m' h, items_twice rest hs)

  -- Where there are as many nodes as followers, and the same happens to a worker of the leaderless
  -- test and to one of the leader-follower test, they leave the same counter and source of truth,
  -- the one raises when the other does, and they return the same numbers, and the same events but
  -- for the names of the nodes and, in a stale event, the key that the name stands under: the
  -- rotation changes who is asked, and not what is measured.
  pub same_bookkeeping :
      (items : List (RequestPlan × (Moment ClusterShared × Moment Shared)))
      → All (λ p. Twin p.1.0 p.1.1) items
      → (shared : ClusterShared) → HasNodes shared
      → Agree {S = ClusterShared}
          (λ x. x.common)
          HasNodes
          unnamed
          (run_worker nodes name_of (map (with_moment (λ p. p.0)) items) shared)
          (LeaderFollower.run_worker followers name_of' leader
            (map (with_moment (λ p. p.1)) items)
            shared.common)
  unfolding run_worker LeaderFollower.run_worker
  same_bookkeeping items h shared has =
      rw
        (
          run_items-map (run_item nodes name_of) (λ p. p.0) items shared new_stats,
          run_items-map (LeaderFollower.run_item followers name_of' leader) (λ p. p.1) items
              shared.common new_stats,
        )
        (run_items-Agree (λ (x : ClusterShared). x.common) HasNodes unnamed (run_item nodes name_of)
          (LeaderFollower.run_item followers name_of' leader) items (items_twice items h) shared
          shared.common new_stats new_stats refl has refl)
