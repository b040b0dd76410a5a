-- ===== src/Leaderless/Node/Newest.antt =====
-- The choice of the winner in `get_key_coordinator` of leaderless/node.py.
use kv_replication_lab.Prelude.{
  ◌≡◌, refl, sym, ap, subst, ◌⊎◌, inl, inr, String, Bool, true, false, Option, none, some, List, [],
  ◌∷◌, In, arith, some_inj, if◌then◌else◌, Bool-cases,
}
use kv_replication_lab.Common.Models.{VersionedValue, is_newer_than}
use kv_replication_lab.Common.Models.Order.{not_newer_trans, not_newer_self, newer_asymm}
use kv_replication_lab.Common.Server.{HttpResult, ok, entry_response, http_exception, KvResponse}
use kv_replication_lab.Leaderless.Node.{candidates, newest, winner_answer}

module _ {V : Type 0} where
  newest-ge :
      (es : List (VersionedValue V)) (w : VersionedValue V) → is_newer_than w (newest w es) ≡ false
  unfolding newest
  newest-ge [] w = not_newer_self w
  newest-ge (e ∷ es) w =
      not_newer_trans w (if is_newer_than e w then e else w)
        (newest (if is_newer_than e w then e else w) es) (step e w)
        (newest-ge es (if is_newer_than e w then e else w))
    where
      step : (e w : VersionedValue V) → is_newer_than w (if is_newer_than e w then e else w) ≡ false
      step e w = ground (arith, newer_asymm e w, not_newer_self w)

  -- No candidate is newer than the winner.
  pub newest-max :
      (es : List (VersionedValue V)) (w e : VersionedValue V)
      → In e (w ∷ es)
      → is_newer_than e (newest w es) ≡ false
  unfolding newest
  newest-max es w e (inl p) =
      subst (λ x. is_newer_than x (newest w es) ≡ false) (sym p) (newest-ge es w)
  newest-max [] w e (inr m) = absurd m
  newest-max (x ∷ es) w e (inr (inl p)) =
      subst (λ y. is_newer_than y (newest w (x ∷ es)) ≡ false) (sym p)
        (elim (Bool-cases (is_newer_than x w)) [
          | inl newer ↦ rw newer (newest-ge es x)
          | inr not_newer ↦
              rw not_newer (not_newer_trans x w (newest w es) not_newer (newest-ge es w))
        ])
  newest-max (x ∷ es) w e (inr (inr m)) =
      newest-max es (if is_newer_than x w then x else w) e (inr m)

  In-if :
      (b : Bool) (r x w : VersionedValue V) (es : List (VersionedValue V))
      → In r ((if b then x else w) ∷ es)
      → In r (w ∷ x ∷ es)
  In-if true r x w es m = inr m
  In-if false r x w es (inl p) = inl p
  In-if false r x w es (inr m) = inr (inr m)

  pub newest-In : (es : List (VersionedValue V)) (w : VersionedValue V) → In (newest w es) (w ∷ es)
  unfolding newest
  newest-In [] w = inl refl
  newest-In (x ∷ es) w =
      In-if (is_newer_than x w) _ x w es (newest-In es (if is_newer_than x w then x else w))

  pub In-candidates :
      (e : VersionedValue V) (es : List (Option (VersionedValue V)))
      → In (some e) es
      → In e (candidates es)
  unfolding candidates
  In-candidates e [] m = m
  In-candidates e (none ∷ es) (inl p) = absurd (ground arith)
  In-candidates e (none ∷ es) (inr m) = In-candidates e es m
  In-candidates e (some x ∷ es) (inl p) = inl (some_inj e x p)
  In-candidates e (some x ∷ es) (inr m) = inr (In-candidates e es m)

  pub candidates-In :
      (e : VersionedValue V) (es : List (Option (VersionedValue V)))
      → In e (candidates es)
      → In (some e) es
  unfolding candidates
  candidates-In e [] m = m
  candidates-In e (none ∷ es) m = inr (candidates-In e es m)
  candidates-In e (some x ∷ es) (inl p) = inl (ap some p)
  candidates-In e (some x ∷ es) (inr m) = inr (candidates-In e es m)

-- An answer tells the newest of some entries: it has one of them that no other is newer than, or it
-- is a 404 and there is none.
abbrev pub IsNewestOf :
    {V : Type 0} (key : String)
    → List (Option (VersionedValue V))
    → HttpResult (KvResponse V)
    → Type 0
IsNewestOf {V} key entries answer =
    ((answer ≡ http_exception 404) × ((e : VersionedValue V) → ¬ In (some e) entries))
    ⊎ ((x : VersionedValue V) × (answer ≡ ok (entry_response key x))
        × In (some x) entries
        × ((e : VersionedValue V) → In (some e) entries → is_newer_than e x ≡ false))

pub winner-IsNewestOf :
    {V : Type 0} (key : String) (entries : List (Option (VersionedValue V)))
    → IsNewestOf key entries (winner_answer key (candidates entries))
winner-IsNewestOf {V} key entries =
    among (candidates entries) (λ x. candidates-In x entries) (λ x. In-candidates x entries)
  where
    among :
        (es : List (VersionedValue V))
        → ((x : VersionedValue V) → In x es → In (some x) entries)
        → ((x : VersionedValue V) → In (some x) entries → In x es)
        → IsNewestOf key entries (winner_answer key es)
    among [] from into = inl (refl, into)
    among (e ∷ es) from into = inr (
      newest e es,
      refl,
      from (newest e es) (newest-In es e),
      λ x m. newest-max es e x (into x m),
    )
