-- ===== src/Tests/Stores.antt =====
-- Examples for common/.
use kv_replication_lab.Prelude.{
  ℕ, ◌+◌, ◌-◌, ◌≡◌, ◌≢◌, refl, ◌⊎◌, inl, inr, ◌↔◌, String, Bool, true, false, none, some, List, [],
  ◌∷◌, In, arith, is_some, ◌==◌, if◌then◌else◌,
}
use kv_replication_lab.Common.Models.{VersionedValue, is_newer_than}
use kv_replication_lab.Common.Storage.{KvStore, empty, get, put, key_count}
use kv_replication_lab.Common.Storage.Laws.{IsWellFormed, version, winner, supersedes, put_lem}
use kv_replication_lab.Common.Storage.Replay.{
  Write, apply_all, AtLeast, OneValuePerStamp, apply_all_converges,
}
use kv_replication_lab.Common.Server.{ReplicateRequest}
use kv_replication_lab.Common.Config.{Checked, require_nonempty_str, strip}

abbrev early : VersionedValue ℕ
early = version 1 5 "a"

abbrev late : VersionedValue ℕ
late = version 2 6 "b"

abbrev one_entry : KvStore ℕ
one_entry = record { data_ = ("k", early) ∷ [] }

one_entry-IsWellFormed : IsWellFormed one_entry
one_entry-IsWellFormed = record { keys_once = (λ m. m, tt) }

put_lem_example :
    ((put one_entry "k" 2 6 "b").1 ≡ supersedes late (get one_entry "k"))
    × (get (put one_entry "k" 2 6 "b").0 "j"
        ≡ (if "k" == "j" then some (winner late (get one_entry "k")) else get one_entry "j"))
    × (key_count (put one_entry "k" 2 6 "b").0
        ≡ (if is_some (get one_entry "k") then key_count one_entry else key_count one_entry + 1))
put_lem_example = put_lem one_entry "k" 2 6 "b" "j"

abbrev in_order : List (Write ℕ)
in_order = ("k", early) ∷ ("k", late) ∷ []

abbrev twice : List (Write ℕ)
twice = ("k", late) ∷ ("k", early) ∷ ("k", late) ∷ []

in_order-OneValuePerStamp : OneValuePerStamp in_order
in_order-OneValuePerStamp k u v (inl e) (inl q) same = ground arith
in_order-OneValuePerStamp k u v (inl e) (inr (inl q)) same = absurd (ground arith)
in_order-OneValuePerStamp k u v (inl e) (inr (inr q)) same = absurd q
in_order-OneValuePerStamp k u v (inr (inl e)) (inl q) same = absurd (ground arith)
in_order-OneValuePerStamp k u v (inr (inl e)) (inr (inl q)) same = ground arith
in_order-OneValuePerStamp k u v (inr (inl e)) (inr (inr q)) same = absurd q
in_order-OneValuePerStamp k u v (inr (inr e)) m same = absurd e

into : (w : Write ℕ) → In w in_order → In w twice
into w (inl e) = inr (inl e)
into w (inr (inl e)) = inl e
into w (inr (inr e)) = absurd e

back : (w : Write ℕ) → In w twice → In w in_order
back w (inl e) = inr (inl e)
back w (inr (inl e)) = inl e
back w (inr (inr (inl e))) = inr (inl e)
back w (inr (inr (inr e))) = absurd e

apply_all_converges_example : get (apply_all empty in_order) "k" ≡ get (apply_all empty twice) "k"
apply_all_converges_example =
    apply_all_converges in_order twice in_order-OneValuePerStamp into back "k"

early_held : AtLeast early (get one_entry "k")
unfolding get is_newer_than kv_replication_lab.Prelude.lookup
early_held = refl

abbrev again : ReplicateRequest ℕ
again = record { key = "k"; value = 2; timestamp = 6; node_id = "b" }

abbrev kv : String
kv = "kv"

trimmed : require_nonempty_str " kv " ≡ Checked.ok "kv"
unfolding require_nonempty_str strip kv_replication_lab.Common.Config.is_space
trimmed = refl
