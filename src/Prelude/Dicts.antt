-- ===== src/Prelude/Dicts.antt =====
-- Python's `dict` with text keys: an association list in insertion order, each key once.
use kv_replication_lab.Prelude.Tests.{if◌then◌else◌}
use kv_replication_lab.Prelude.Lists.{length, In, Distinct}
use Prim.Native.Nat.{◌+◌}
use Prim.Native.String.{String}
use mathlib.Core.Path.{◌≡◌, refl}
use mathlib.Core.Logic.{◌⊎◌, inl, inr}
use mathlib.Core.Bool.{Bool, true, false}
use mathlib.Core.Option.{Option, none, some}
use mathlib.Core.List.{List, [], ◌∷◌}
use native.Mathlib.Omega.{arith}
use text.Mathlib.Text.{◌==◌}
use text.Mathlib.TextEquality.{eq_iff}

abbrev pub Dict {ℓ} : Type ℓ → Type ℓ
Dict V = List (String × V)

abbrev pub is_some {ℓ} : {A : Type ℓ} → Option A → Bool
is_some none = false
is_some (some a) = true

module _ {ℓ} {V : Type ℓ} where
  -- `d.get(k)`
  unfoldable pub lookup : String → Dict V → Option V
  lookup k [] = none
  lookup k ((j, v) ∷ m) = if j == k then some v else lookup k m

  -- `d[k] = v`: in place for a key that is there, at the end for a new one
  unfoldable pub insert : String → V → Dict V → Dict V
  insert k v [] = (k, v) ∷ []
  insert k v ((j, w) ∷ m) = if j == k then (j, v) ∷ m else (j, w) ∷ insert k v m

  -- `del d[k]`
  unfoldable pub remove : String → Dict V → Dict V
  remove k [] = []
  remove k ((j, w) ∷ m) = if j == k then m else (j, w) ∷ remove k m

  -- `k in d`
  unfoldable pub has : String → Dict V → Bool
  has k [] = false
  has k ((j, w) ∷ m) = if j == k then true else has k m

  abbrev pub keys : Dict V → List String
  keys [] = []
  keys ((j, w) ∷ m) = j ∷ keys m

module _ {ℓ} {V : Type ℓ} where
  -- After a write the written key has the value, and no other key has changed.
  pub lookup-insert :
      (key other : String) (value : V) (d : Dict V)
      → lookup other (insert key value d) ≡ (if key == other then some value else lookup other d)
  unfolding lookup insert
  lookup-insert key other value [] = refl
  lookup-insert key other value ((first, held) ∷ d) = ground (
    arith,
    lookup-insert key other value d,
    eq_iff first other,
    eq_iff first key,
    eq_iff key other,
  )

  pub is_some-lookup : (k : String) (m : Dict V) → is_some (lookup k m) ≡ has k m
  unfolding lookup has
  is_some-lookup k [] = refl
  is_some-lookup k ((j, w) ∷ m) = ground (arith, is_some-lookup k m)

  pub has_of_In : (k : String) (m : Dict V) → In k (keys m) → has k m ≡ true
  unfolding has
  has_of_In k [] h = absurd h
  has_of_In k ((j, w) ∷ m) (inl e) = ground (arith, eq_iff j k)
  has_of_In k ((j, w) ∷ m) (inr h) = ground (arith, has_of_In k m h)

  pub In-of_has : (k : String) (m : Dict V) → has k m ≡ true → In k (keys m)
  unfolding has
  In-of_has k [] h = ground arith
  In-of_has k ((j, w) ∷ m) h = ground (arith, eq_iff j k, In-of_has k m)

  pub lookup-remove_ne :
      (k j : String) (m : Dict V) → (k == j) ≡ false → lookup j (remove k m) ≡ lookup j m
  unfolding lookup remove
  lookup-remove_ne k j [] h = refl
  lookup-remove_ne k j ((i, w) ∷ m) h =
      ground (arith, eq_iff k j, eq_iff i k, eq_iff i j, lookup-remove_ne k j m h)

  pub lookup-remove_self :
      (k : String) (m : Dict V) → Distinct (keys m) → lookup k (remove k m) ≡ none
  unfolding lookup remove
  lookup-remove_self k [] d = refl
  lookup-remove_self k ((i, w) ∷ m) d =
      ground (arith, eq_iff i k, lookup-remove_self k m d.1, is_some-lookup k m, In-of_has k m)

  pub length-insert :
      (k : String) (v : V) (m : Dict V)
      → length (insert k v m) ≡ (if has k m then length m else length m + 1)
  unfolding insert has
  length-insert k v [] = refl
  length-insert k v ((j, w) ∷ m) = ground (arith, length-insert k v m)

  pub length-remove :
      (k : String) (m : Dict V) → has k m ≡ true → length (remove k m) + 1 ≡ length m
  unfolding remove has
  length-remove k [] h = ground arith
  length-remove k ((j, w) ∷ m) h = ground (arith, length-remove k m)

  In-insert :
      (j k : String) (v : V) (m : Dict V) → In j (keys (insert k v m)) → (j ≡ k) ⊎ In j (keys m)
  unfolding insert
  In-insert j k v [] h = h
  In-insert j k v ((i, w) ∷ m) h = ground (arith, In-insert j k v m)

  In-remove : (j k : String) (m : Dict V) → In j (keys (remove k m)) → In j (keys m)
  unfolding remove
  In-remove j k [] h = h
  In-remove j k ((i, w) ∷ m) h = ground (arith, In-remove j k m)

  pub insert-Distinct :
      (k : String) (v : V) (m : Dict V) → Distinct (keys m) → Distinct (keys (insert k v m))
  unfolding insert
  insert-Distinct k v [] d = (λ h. h, tt)
  insert-Distinct k v ((i, w) ∷ m) d =
      ground (arith, eq_iff i k, In-insert i k v m, insert-Distinct k v m d.1)

  pub remove-Distinct : (k : String) (m : Dict V) → Distinct (keys m) → Distinct (keys (remove k m))
  unfolding remove
  remove-Distinct k [] d = tt
  remove-Distinct k ((i, w) ∷ m) d = ground (arith, In-remove i k m, remove-Distinct k m d.1)
