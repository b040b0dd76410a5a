-- ===== src/LoadTest/Leaderless/Rotation.antt =====
-- The order in which `NodeRotation` (experiments/leaderless_staleness_load_test.py) gives its nodes.
use Prim.Native.Nat.{◌%◌, ◌*◌, ◌/◌, ◌≤◌, ◌<◌}
use native.Mathlib.Nat.{mod-lt, mod-add-div', add-mul-mod_self_right, mod-eq_of_lt}
use kv_replication_lab.Prelude.{
  ℕ, zero, suc, ◌+◌, ◌-◌, ◌≡◌, refl, ap, sym, ◌∙◌, Option, some, List, [], ◌∷◌, ◌++◌, map, false,
  length, length-drop, take, drop, arith, get_elem?, is_empty, take-all, map-append,
}
use kv_replication_lab.Leaderless.Config.{Node}
use kv_replication_lab.LoadTest.Leaderless.{NodeRotation, next_node}

-- The results of n calls, one after the other.
abbrev pub picks : ℕ → NodeRotation → List (Option Node)
picks zero r = []
picks (suc n) r = (next_node r).1 ∷ picks n (next_node r).0

-- The rotation after n calls.
abbrev pub advance : ℕ → NodeRotation → NodeRotation
advance zero r = r
advance (suc n) r = advance n (next_node r).0

picks-add : (m n : ℕ) (r : NodeRotation) → picks (m + n) r ≡ picks m r ++ picks n (advance m r)
picks-add zero n r = ap (λ (k : ℕ). picks k r) (omega arith)
picks-add (suc m) n r =
    ap (λ (k : ℕ). picks k r) (suc_add m n)
    ∙ ap (◌∷◌ (next_node r).1) (picks-add m n (next_node r).0)
  where
    suc_add : (m n : ℕ) → suc m + n ≡ suc (m + n)
    suc_add m n = omega arith

take-drop :
    {A : Type 0} (xs : List A) (j k : ℕ)
    → j < length xs
    → map some (take (suc k) (drop j xs)) ≡ get_elem? xs j ∷ map some (take k (drop (suc j) xs))
take-drop [] j k h = absurd (nothing_below j h)
  where
    nothing_below : (j : ℕ) → ¬ (j < 0)
    nothing_below j h = omega (arith, h)
take-drop (x ∷ xs) zero k h = refl
take-drop (x ∷ xs) (suc j) k h = take-drop xs j k (omega (arith, h))

module _ (n : Node) (ns : List Node) where
  abbrev nodes : List Node
  nodes = n ∷ ns

  at_place : (j a : ℕ) → j < length nodes → (j + a * length nodes) % length nodes ≡ j
  at_place j a h = add-mul-mod_self_right j a (length nodes) ∙ mod-eq_of_lt h

  -- Before the end of the list is reached, the next nodes come in their order.
  picks_in_order :
      (k j a i : ℕ)
      → i ≡ j + a * length nodes
      → j + k ≤ length nodes
      → (picks k (record { nodes = nodes; index = i }) ≡ map some (take k (drop j nodes)))
        × (advance k (record { nodes = nodes; index = i })
            ≡ record { nodes = nodes; index = i + k })
  unfolding next_node
  picks_in_order zero j a i e h =
      (refl, ap (λ (x : ℕ). record { nodes = nodes; index = x }) (omega arith))
  picks_in_order (suc k) j a i e h =
      let (ps, r) = picks_in_order k (suc j) a (i + 1) (omega (arith, e)) (omega (arith, h)) in
      let here = ap (λ (x : ℕ). x % length nodes) e ∙ at_place j a (omega (arith, h)) in
      (
        (λ t. get_elem? nodes (here t) ∷ ps t) ∙ sym (take-drop nodes j k (omega (arith, h))),
        r ∙ ap (λ (x : ℕ). record { nodes = nodes; index = x }) (omega arith),
      )

  some_node : (k : ℕ) → 0 < suc k
  some_node k = omega arith

  next_turn :
      (i : ℕ) → i + (length nodes - i % length nodes) ≡ 0 + (i / length nodes + 1) * length nodes
  next_turn i = omega (
    arith,
    mod-add-div' i (length nodes),
    mod-lt i (some_node (length ns)),
    one_more (i / length nodes) (length nodes),
  )
    where
      one_more : (a k : ℕ) → (a + 1) * k ≡ a * k + k
      one_more a k = omega arith

  one_round :
      (i : ℕ)
      → picks (length nodes) (record { nodes = nodes; index = i })
        ≡ map some (drop (i % length nodes) nodes ++ take (i % length nodes) nodes)
  one_round i =
      let j = i % length nodes in
      let j<n : j < length nodes = mod-lt i (some_node (length ns)) in
      let start : NodeRotation = record { nodes = nodes; index = i } in
      let (up_to_end, at_end) =
        picks_in_order (length nodes - j) j (i / length nodes) i
          (sym (mod-add-div' i (length nodes))) (omega (arith, j<n)) in
      let (from_start, _) =
        picks_in_order j 0 (i / length nodes + 1) _ (next_turn i) (omega (arith, j<n)) in
      let parts : length nodes ≡ (length nodes - j) + j = omega (arith, j<n) in
      ap (λ (k : ℕ). picks k start) parts
      ∙ picks-add (length nodes - j) j start
      ∙ (λ t. up_to_end t ++ picks j (at_end t))
      ∙ (λ t.
          map some (take-all (drop j nodes) (length nodes - j) (sym (length-drop j nodes)) t)
          ++ from_start t)
      ∙ sym (map-append some (drop j nodes) (take j nodes))

-- As many calls of `next_node` in a row as there are nodes give each node once, in the order of the
-- list, from the place of the index on and round to it again.
pub next_node-round :
    (r : NodeRotation)
    → is_empty r.nodes ≡ false
    → picks (length r.nodes) r
      ≡ map some
          (drop (r.index % length r.nodes) r.nodes ++ take (r.index % length r.nodes) r.nodes)
next_node-round r h = by_nodes r.nodes r.index h
  where
    by_nodes :
        (nodes : List Node) (i : ℕ)
        → is_empty nodes ≡ false
        → picks (length nodes) (record { nodes = nodes; index = i })
          ≡ map some (drop (i % length nodes) nodes ++ take (i % length nodes) nodes)
    by_nodes [] i h = cc h
    by_nodes (n ∷ ns) i h = one_round n ns i
