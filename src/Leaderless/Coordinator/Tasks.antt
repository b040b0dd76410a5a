-- ===== src/Leaderless/Coordinator/Tasks.antt =====
-- The tasks of `QuorumCoordinator._gather` (leaderless/node.py): which of them count, and with which
-- values.
use kv_replication_lab.Prelude.{
  ℕ, suc, ◌+◌, ◌≡◌, refl, sym, ap, subst, inl, inr, Bool, true, false, not, Option, none, some,
  List, [], ◌∷◌, ◌++◌, length, keep, In, Distinct, In-keep, arith, if◌then◌else◌, Within, Apart,
  Distinct-append, In-append, Bool-cases,
}
use mathlib.Core.List.{Perm, perm_middle}
use mathlib.Core.List.Perm
use kv_replication_lab.Common.Waiting.{Outcome, returned, raised}
use kv_replication_lab.Leaderless.Coordinator.{Task, add_value, counted_values}

module _ {A : Type 0} where
  -- The identities of the tasks: their peers' ports.
  abbrev pub ids : List (Task A) → List ℕ
  ids [] = []
  ids (t ∷ ts) = t.peer.port ∷ ids ts

  -- Each task of a list has come to a value that counts, and these are the values.
  abbrev pub Answers : List (Task A) → List A → Type 0
  Answers [] [] = Unit
  Answers [] (v ∷ vs) = ⊥
  Answers (t ∷ ts) [] = ⊥
  Answers (t ∷ ts) (v ∷ vs) = (t.result ≡ returned (true, v)) × Answers ts vs

module _ {A : Type 0} where
  pub Answers-append :
      (xs ys : List (Task A)) (vs ws : List A)
      → Answers xs vs
      → Answers ys ws
      → Answers (xs ++ ys) (vs ++ ws)
  Answers-append [] ys [] ws a b = b
  Answers-append [] ys (v ∷ vs) ws a b = absurd a
  Answers-append (x ∷ xs) ys [] ws a b = absurd a
  Answers-append (x ∷ xs) ys (v ∷ vs) ws a b = (a.0, Answers-append xs ys vs ws a.1 b)

  pub Answers-length : (ts : List (Task A)) (vs : List A) → Answers ts vs → length ts ≡ length vs
  Answers-length [] [] a = refl
  Answers-length [] (v ∷ vs) a = absurd a
  Answers-length (t ∷ ts) [] a = absurd a
  Answers-length (t ∷ ts) (v ∷ vs) a = ap suc (Answers-length ts vs a.1)

  ids-append : (xs ys : List (Task A)) → ids (xs ++ ys) ≡ ids xs ++ ids ys
  ids-append [] ys = refl
  ids-append (x ∷ xs) ys = ap (◌∷◌ x.peer.port) (ids-append xs ys)

  -- The task's peer gives an answer that counts.
  unfoldable pub counts : Task A → Bool
  counts t = elim t.result [ raised ↦ false | returned p ↦ p.0 ]

  ids-keep-In :
      (p : Task A → Bool) (x : ℕ) (ts : List (Task A)) → In x (ids (keep p ts)) → In x (ids ts)
  ids-keep-In p x [] m = m
  ids-keep-In p x (t ∷ ts) m = ground (arith, ids-keep-In p x ts)

  ids-keep-Distinct :
      (p : Task A → Bool) (ts : List (Task A)) → Distinct (ids ts) → Distinct (ids (keep p ts))
  ids-keep-Distinct p [] d = tt
  ids-keep-Distinct p (t ∷ ts) d =
      ground (arith, ids-keep-In p t.peer.port ts, ids-keep-Distinct p ts d.1)

  Apart-step :
      (b : Bool) (t : Task A) (ts ks ns : List (Task A)) (x : ℕ)
      → ¬ In t.peer.port (ids ts)
      → Within (ids ks) (ids ts)
      → Within (ids ns) (ids ts)
      → Apart (ids ks) (ids ns)
      → In x (ids (if b then t ∷ ks else ks))
      → ¬ In x (ids (if not b then t ∷ ns else ns))
  Apart-step true t ts ks ns x fresh wk wn a (inl e) n =
      fresh (wn t.peer.port (subst (λ z. In z (ids ns)) e n))
  Apart-step true t ts ks ns x fresh wk wn a (inr m) n = a x m n
  Apart-step false t ts ks ns x fresh wk wn a m (inl e) =
      fresh (wk t.peer.port (subst (λ z. In z (ids ks)) e m))
  Apart-step false t ts ks ns x fresh wk wn a m (inr n) = a x m n

  ids-keep-Apart :
      (p : Task A → Bool) (ts : List (Task A))
      → Distinct (ids ts)
      → Apart (ids (keep p ts)) (ids (keep (λ t. not (p t)) ts))
  ids-keep-Apart p [] d x m n = m
  ids-keep-Apart p (t ∷ ts) d x m n =
      Apart-step (p t) t ts (keep p ts) (keep (λ t. not (p t)) ts) x d.0 (λ z. ids-keep-In p z ts)
        (λ z. ids-keep-In (λ t. not (p t)) z ts) (ids-keep-Apart p ts d.1) m n

  add_value-some :
      (r : Outcome (Bool × A)) (o : Option (List A)) (vs : List A)
      → add_value r o ≡ some vs
      → (b : Bool) × (v : A) × (ws : List A) × (r ≡ returned (b, v))
        × (o ≡ some ws)
        × (vs ≡ (if b then v ∷ ws else ws))
  add_value-some raised o vs h = absurd (ground arith)
  add_value-some (returned (b, v)) none vs h = absurd (ground arith)
  add_value-some (returned (b, v)) (some ws) vs h = (b, v, ws, refl, refl, ground arith)

  Answers-step :
      (b : Bool) (t : Task A) (v : A) (ks : List (Task A)) (ws : List A)
      → t.result ≡ returned (b, v)
      → Answers ks ws
      → Answers (if counts t then t ∷ ks else ks) (if b then v ∷ ws else ws)
  unfolding counts
  Answers-step true t v ks ws e a = rw e (refl, a)
  Answers-step false t v ks ws e a = rw e a

  -- The tasks of a list that count, with their values.
  pub counted-Answers :
      (ts : List (Task A)) (vs : List A) → counted_values ts ≡ some vs → Answers (keep counts ts) vs
  unfolding counted_values
  counted-Answers [] [] h = tt
  counted-Answers [] (v ∷ vs) h = absurd (ground arith)
  counted-Answers (t ∷ ts) vs h =
      let (b, v, ws, e, q, w) = add_value-some t.result (counted_values ts) vs h in
      rw w (Answers-step b t v (keep counts ts) ws e (counted-Answers ts ws q))

  -- How many of the tasks count.
  unfoldable pub total_counts : List (Task A) → ℕ
  unfolding counts
  total_counts [] = 0
  total_counts (t ∷ ts) = (if counts t then 1 else 0) + total_counts ts

  pub total_counts-keep : (ts : List (Task A)) → length (keep counts ts) ≡ total_counts ts
  unfolding total_counts
  total_counts-keep [] = refl
  total_counts-keep (t ∷ ts) = ground (arith, total_counts-keep ts)

  pub In-ids :
      (x : ℕ) (ts : List (Task A)) → In x (ids ts) → (t : Task A) × In t ts × (t.peer.port ≡ x)
  In-ids x [] m = absurd m
  In-ids x (t ∷ ts) (inl e) = (t, inl refl, sym e)
  In-ids x (t ∷ ts) (inr m) = let (u, k, e) = In-ids x ts m in (u, inr k, e)

  ids-In : (t : Task A) (ts : List (Task A)) → In t ts → In t.peer.port (ids ts)
  ids-In t [] m = absurd m
  ids-In t (u ∷ ts) (inl e) = inl (ap (λ z. z.peer.port) e)
  ids-In t (u ∷ ts) (inr m) = inr (ids-In t ts m)

-- Some of the tasks, each as often as it is among them or less: with others they are all of the
-- tasks, in another order.
pub record Part {A : Type 0} (xs ts : List (Task A)) : Type 0 where
  pub others : List (Task A)
  pub split : Perm (xs ++ others) ts
  pub from : (t : Task A) → In t xs → In t ts
  pub each_once : Distinct (ids ts) → Distinct (ids xs)

module _ {A : Type 0} where
  pub Part-Within : (xs ts : List (Task A)) → Part xs ts → Within (ids xs) (ids ts)
  Part-Within xs ts p x m =
      let (t, k, e) = In-ids x xs m in subst (λ z. In z (ids ts)) e (ids-In t ts (p.from t k))

  keep-split :
      (p : Task A → Bool) (ts : List (Task A)) → Perm (keep p ts ++ keep (λ t. not (p t)) ts) ts
  keep-split p [] = Perm.refl []
  keep-split p (t ∷ ts) = elim (Bool-cases (p t)) [
    | inl kept ↦ rw kept (Perm.cons t (keep-split p ts))
    | inr left ↦ rw left (
        Perm.trans (perm_middle (keep p ts) (keep (λ t. not (p t)) ts))
          (Perm.cons t (keep-split p ts)))
  ]

  move_front : (xs ys zs : List (Task A)) → Perm (xs ++ (ys ++ zs)) (ys ++ (xs ++ zs))
  move_front xs [] zs = Perm.refl (xs ++ zs)
  move_front xs (y ∷ ys) zs =
      Perm.trans (perm_middle xs (ys ++ zs)) (Perm.cons y (move_front xs ys zs))

  swap_inner :
      (xs ys us vs : List (Task A)) → Perm ((xs ++ ys) ++ (us ++ vs)) ((xs ++ us) ++ (ys ++ vs))
  swap_inner [] ys us vs = move_front ys us vs
  swap_inner (x ∷ xs) ys us vs = Perm.cons x (swap_inner xs ys us vs)

  pub Part-keep : (p : Task A → Bool) (ts : List (Task A)) → Part (keep p ts) ts
  Part-keep p ts = record {
    others = keep (λ t. not (p t)) ts;
    split = keep-split p ts;
    from = λ t m. (In-keep p t ts m).0;
    each_once = ids-keep-Distinct p ts;
  }

  -- Some of those that pass a test, and some of those that do not.
  pub Part-append :
      (p : Task A → Bool) (xs ys ts : List (Task A))
      → Part xs (keep p ts)
      → Part ys (keep (λ t. not (p t)) ts)
      → Part (xs ++ ys) ts
  Part-append p xs ys ts px py = record {
    others = px.others ++ py.others;
    split =
        Perm.trans (swap_inner xs ys px.others py.others)
          (Perm.trans (Perm.append px.split py.split) (keep-split p ts));
    from = λ t m. elim (In-append t xs ys m) [
      | inl l ↦ (In-keep p t ts (px.from t l)).0
      | inr r ↦ (In-keep (λ u. not (p u)) t ts (py.from t r)).0
    ];
    each_once = λ d. subst Distinct (sym (ids-append xs ys)) (
        Distinct-append (ids xs) (ids ys) (px.each_once (ids-keep-Distinct p ts d))
          (py.each_once (ids-keep-Distinct (λ t. not (p t)) ts d))
          (λ x m n.
            ids-keep-Apart p ts d x (Part-Within xs (keep p ts) px x m)
              (Part-Within ys (keep (λ t. not (p t)) ts) py x n)));
  }

  pub Part-nil : (ts : List (Task A)) → Part [] ts
  Part-nil ts = record {
    others = ts;
    split = Perm.refl ts;
    from = λ t m. absurd m;
    each_once = λ d. tt;
  }
