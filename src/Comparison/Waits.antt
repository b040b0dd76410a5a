-- ===== src/Comparison/Waits.antt =====
-- Waiting for a cluster (experiments/run_comparison.py): `_wait_for_all_healthy` and
-- `_wait_for_mq_followers_assigned`.
use kv_replication_lab.Prelude.{
  ℕ, zero, suc, ◌+◌, ◌-◌, ◌≤◌, ◌<◌, ◌≡◌, refl, inl, inr, ◌⊎◌, Bool, true, false, Option, none, some,
  List, [], ◌∷◌, All, In, is_empty, arith, nat_eq, ltb, if◌then◌else◌, if_cases, sym, subst,
}
use kv_replication_lab.Common.Waiting.{Outcome, returned, raised}
use kv_replication_lab.Comparison.{SpawnedNode}
use kv_replication_lab.LoadTest.Worker.{Answer, http_error, response}

-- What a round finds of a node: that it is ready, that it is not ready yet, or an exception.
pub data Probe : Type 0 where
  ready not_ready broken : Probe

-- One round's look at a node for `_wait_for_all_healthy`: `poll`, and the answer of /health.
unfoldable pub probe_health : {A : Type 0} → (has_exited : Bool) → Answer A → Probe
probe_health true answer = broken
probe_health false (http_error exc) = not_ready
probe_health false (response status_code body) = if nat_eq status_code 200 then ready else not_ready

abbrev pub assigned : Option (List ℕ) → Probe
assigned none = broken
assigned (some partitions) = if is_empty partitions then not_ready else ready

-- The same for `_wait_for_mq_followers_assigned`, with the `partitions` of /internal/lag.
unfoldable pub probe_assigned : (has_exited : Bool) → Answer (List ℕ) → Probe
probe_assigned true answer = broken
probe_assigned false (http_error exc) = not_ready
probe_assigned false (response status_code body) =
    if nat_eq status_code 200 then assigned body else not_ready

abbrev pub keep_pending : SpawnedNode → Option (List SpawnedNode) → Option (List SpawnedNode)
keep_pending node none = none
keep_pending node (some rest) = some (node ∷ rest)

abbrev pub probed : SpawnedNode → Probe → Option (List SpawnedNode) → Option (List SpawnedNode)
probed node ready rest = rest
probed node not_ready rest = keep_pending node rest
probed node broken rest = none

-- The `for` loop: what is still pending after a round, or `none` for an exception.
abbrev pub probe_all : (SpawnedNode → Probe) → List SpawnedNode → Option (List SpawnedNode)
probe_all probe [] = some []
probe_all probe (node ∷ rest) = probed node (probe node) (probe_all probe rest)

module _ (probe : (round : ℕ) → SpawnedNode → Probe) (now : ℕ → ℕ) (deadline : ℕ) where
  -- The `while` loop, from a round on; `none` means that the fuel ran out.
  unfoldable pub wait_loop : (fuel round : ℕ) → List SpawnedNode → Option (Outcome (Unit {0}))
  wait_loop zero i pending = none
  wait_loop (suc f) i pending = elim (probe_all (probe i) pending) [
    | none ↦ some raised
    | some still_pending ↦
        let rest = wait_loop f (i + 1) still_pending in
        if is_empty still_pending
        then some (returned tt)
        else if ltb deadline (now i)
        then some raised
        else rest
  ]

-- The whole wait: the clock of round 0 sets the deadline.
unfoldable pub wait_until_ready :
    (probe : (round : ℕ) → SpawnedNode → Probe) (now : ℕ → ℕ) (timeout fuel : ℕ)
    → List SpawnedNode
    → Option (Outcome (Unit {0}))
wait_until_ready probe now timeout fuel nodes = wait_loop probe now (now 0 + timeout) fuel 1 nodes

-- What a round finds.
abbrev Rounded : (SpawnedNode → Probe) → List SpawnedNode → Option (List SpawnedNode) → Type 0
Rounded p ns none = (n : SpawnedNode) × In n ns × (p n ≡ broken)
Rounded p ns (some rest) =
    All (λ n. (p n ≡ ready) ⊎ In n rest) ns × All (λ n. In n ns × (p n ≡ not_ready)) rest

weaken :
    {A : Type 0} (P Q : A → Type 0) → ((a : A) → P a → Q a) → (xs : List A) → All P xs → All Q xs
weaken P Q f [] h = tt
weaken P Q f (x ∷ xs) (h, hs) = (f x h, weaken P Q f xs hs)

probe_all-Rounded :
    (p : SpawnedNode → Probe) (ns : List SpawnedNode) → Rounded p ns (probe_all p ns)
probe_all-Rounded p [] = (tt, tt)
probe_all-Rounded p (n ∷ ns) = by_probe (p n) refl (probe_all p ns) (probe_all-Rounded p ns)
  where
    by_probe :
        (q : Probe)
        → p n ≡ q
        → (r : Option (List SpawnedNode)) → Rounded p ns r
        → Rounded p (n ∷ ns) (probed n q r)
    by_probe broken e r h = (n, inl refl, e)
    by_probe ready e none (m, there, b) = (m, inr there, b)
    by_probe not_ready e none (m, there, b) = (m, inr there, b)
    by_probe ready e (some rest) (h, k) =
        ((inl e, h), weaken _ _ (λ m (there, b). (inr there, b)) rest k)
    by_probe not_ready e (some rest) (h, k) = (
      (inr (inl refl), weaken _ _ (λ m. later m) ns h),
      ((inl refl, e), weaken _ _ (λ m (there, b). (inr there, b)) rest k),
    )
      where
        later : (m : SpawnedNode) → ((p m ≡ ready) ⊎ In m rest) → ((p m ≡ ready) ⊎ In m (n ∷ rest))
        later m (inl r) = inl r
        later m (inr i) = inr (inr i)

module _ (probe : (round : ℕ) → SpawnedNode → Probe) (now : ℕ → ℕ)
    (ticks : (i : ℕ) → now i < now (i + 1)) where
  -- Why a wait is given up at a round: a node's probe has raised, or a node is not ready and the
  -- deadline is over.
  abbrev pub GivesUp : (deadline k : ℕ) → SpawnedNode → Type 0
  GivesUp deadline k n = (probe k n ≡ broken) ⊎ ((probe k n ≡ not_ready) × (deadline < now k))

  -- How a wait ends: each node has been ready in some round, or there is an exception, and a reason
  -- for it.
  abbrev pub Waited : (deadline : ℕ) → List SpawnedNode → Option (Outcome (Unit {0})) → Type 0
  Waited deadline nodes e =
      ((e ≡ some (returned tt)) × All (λ n. (k : ℕ) × (probe k n ≡ ready)) nodes)
      ⊎ ((e ≡ some raised) × ((k : ℕ) × (n : SpawnedNode) × In n nodes × GivesUp deadline k n))

  none_left :
      (P : SpawnedNode → Type 0) (rest : List SpawnedNode) → is_empty rest ≡ true → All P rest
  none_left P [] h = tt
  none_left P (x ∷ xs) h = cc h

  one_left :
      (P : SpawnedNode → Type 0) (rest : List SpawnedNode)
      → is_empty rest ≡ false
      → All P rest
      → (n : SpawnedNode) × In n rest × P n
  one_left P [] h all = cc h
  one_left P (x ∷ xs) h (p, ps) = (x, inl refl, p)

  find :
      (P : SpawnedNode → Type 0) (ns : List SpawnedNode)
      → All P ns
      → (n : SpawnedNode) → In n ns
      → P n
  find P [] h n i = elim i [ ]
  find P (m ∷ ns) (h, hs) n (inl e) = subst P (sym e) h
  find P (m ∷ ns) (h, hs) n (inr i) = find P ns hs n i

  -- What is known of the nodes that are still pending carries over to all.
  after_round :
      (deadline i : ℕ) (nodes rest : List SpawnedNode) (e : Option (Outcome (Unit {0})))
      → Rounded (probe i) nodes (some rest)
      → Waited deadline rest e
      → Waited deadline nodes e
  after_round deadline i nodes rest e (covered, pending) (inl (done, all)) =
      inl (done, weaken _ _ found nodes covered)
    where
      found : (m : SpawnedNode) → ((probe i m ≡ ready) ⊎ In m rest) → (k : ℕ) × (probe k m ≡ ready)
      found m (inl r) = (i, r)
      found m (inr there) = find _ rest all m there
  after_round deadline i nodes rest e (covered, pending) (inr (failed, (k, n, there, bad))) =
      inr (failed, (k, n, (find _ rest pending n there).0, bad))

  not_late : (d t : ℕ) → ltb d t ≡ false → t ≤ d
  not_late d t h = ground arith

  is_late : (d t : ℕ) → ltb d t ≡ true → d < t
  is_late d t h = ground arith

  wait_loop_total :
      (deadline fuel i : ℕ) (nodes : List SpawnedNode)
      → deadline + 1 - now i < fuel
      → Waited deadline nodes (wait_loop probe now deadline fuel i nodes)
  unfolding wait_loop
  wait_loop_total deadline zero i nodes lt = absurd (omega (arith, lt))
  wait_loop_total deadline (suc f) i nodes lt =
      by_round (probe_all (probe i) nodes) (probe_all-Rounded (probe i) nodes)
        (λ rest early. wait_loop_total deadline f (i + 1) rest (omega (arith, lt, early, ticks i)))
    where
      by_round :
          (r : Option (List SpawnedNode))
          → Rounded (probe i) nodes r
          → ((rest : List SpawnedNode)
              → now i ≤ deadline
              → Waited deadline rest (wait_loop probe now deadline f (i + 1) rest))
          → Waited deadline nodes (elim r [
            | none ↦ some raised
            | some still_pending ↦
                let rest = wait_loop probe now deadline f (i + 1) still_pending in
                if is_empty still_pending
                then some (returned tt)
                else if ltb deadline (now i)
                then some raised
                else rest
          ])
      by_round none (n, there, b) next = inr (refl, (i, n, there, inl b))
      by_round (some rest) round next = after_round deadline i nodes rest _ round (
          if_cases (Waited deadline rest) (is_empty rest) _ _
            (λ empty. inl (refl, none_left _ rest empty))
            (λ some_left.
              if_cases (Waited deadline rest) (ltb deadline (now i)) _ _
                (λ late.
                  let (n, there, (known, pending)) = one_left _ rest some_left round.1 in
                  inr (refl, (i, n, there, inr (pending, is_late deadline (now i) late))))
                (λ early. next rest (not_late deadline (now i) early))))

  -- On a clock that advances in every round, a wait for a cluster ends, in no more rounds than
  -- there are ticks in its timeout and one more. It returns only if each node has been ready in
  -- some round, and it raises only if some probe of a node has raised, or a node was not ready in a
  -- round in which the clock was past the timeout.
  pub wait_until_ready_total :
      (timeout : ℕ) (nodes : List SpawnedNode)
      → Waited (now 0 + timeout) nodes (wait_until_ready probe now timeout (suc timeout) nodes)
  unfolding wait_until_ready
  wait_until_ready_total timeout nodes =
      wait_loop_total (now 0 + timeout) (suc timeout) 1 nodes (omega (arith, ticks 0))
