-- ===== src/SmokeTest.antt =====
-- The two checks of experiments/kafka_smoke_test.py; SmokeTest.Broker is what it does with the broker.
--
-- What is printed is left out: a check is its first result. The messages' keys are texts, and a dict
-- of lists or sets is what it holds for each key.
pub mod Order
pub mod Broker
pub mod Routing
pub mod Polling
pub mod Consuming
use kv_replication_lab.Prelude.{
  ℕ, zero, suc, ◌+◌, length, String, Bool, true, false, ◌&&◌, List, [], ◌∷◌, ◌++◌, map, keep,
  nat_eq, leb, ltb, ◌==◌, if◌then◌else◌,
}

-- A tuple of `received`.
pub record Received : Type 0 where
  pub key : String
  pub seq : ℕ
  pub partition : ℕ
  pub offset : ℕ

-- `by_partition[partition]`, in the order of consumption
abbrev pub entries_of : ℕ → List Received → List Received
entries_of p received = keep (λ m. nat_eq m.partition p) received

-- `entries.sort(key=lambda e: e[0])`, which is stable
abbrev pub insert_entry : Received → List Received → List Received
insert_entry m [] = m ∷ []
insert_entry m (n ∷ rest) =
    let later = insert_entry m rest in if leb m.offset n.offset then m ∷ n ∷ rest else n ∷ later

unfoldable pub sort_entries : List Received → List Received
sort_entries [] = []
sort_entries (m ∷ rest) = insert_entry m (sort_entries rest)

-- `sorted(set(...))` of numbers
abbrev pub insert_number : ℕ → List ℕ → List ℕ
insert_number n [] = n ∷ []
insert_number n (k ∷ rest) =
    let later = insert_number n rest in
    if ltb n k then n ∷ k ∷ rest else (if nat_eq n k then k ∷ rest else k ∷ later)

unfoldable pub sorted_set : List ℕ → List ℕ
sorted_set [] = []
sorted_set (n ∷ rest) = insert_number n (sorted_set rest)

abbrev pub same_numbers : List ℕ → List ℕ → Bool
same_numbers [] [] = true
same_numbers [] (k ∷ ks) = false
same_numbers (n ∷ ns) [] = false
same_numbers (n ∷ ns) (k ∷ ks) = let rest = same_numbers ns ks in nat_eq n k && rest

abbrev pub all_of : {A : Type 0} → (A → Bool) → List A → Bool
all_of p [] = true
all_of p (a ∷ as') = let rest = all_of p as' in p a && rest

-- `list(range(n))`
abbrev pub range_from : (start count : ℕ) → List ℕ
range_from start zero = []
range_from start (suc n) = start ∷ range_from (start + 1) n

-- The entries of a partition are no problem; a list with a duplicate is not its `sorted(set())`.
unfoldable pub offsets_fine : List Received → ℕ → Bool
offsets_fine received p =
    let offsets = map (λ m. m.offset) (sort_entries (entries_of p received)) in
    same_numbers offsets (sorted_set offsets)

-- `seq_by_key[key]`, over the partitions in their order
unfoldable pub seqs_of : List Received → String → List ℕ → List ℕ
seqs_of received key [] = []
seqs_of received key (p ∷ rest) =
    map (λ m. m.seq) (keep (λ m. m.key == key) (sort_entries (entries_of p received)))
    ++ seqs_of received key rest

unfoldable pub key_fine : (messages_per_key : ℕ) → List Received → Received → Bool
key_fine messages_per_key received m =
    same_numbers (seqs_of received m.key (sorted_set (map (λ n. n.partition) received)))
      (range_from 0 messages_per_key)

-- `check_order_preserved`
unfoldable pub check_order_preserved : (messages_per_key : ℕ) → List Received → Bool
unfolding offsets_fine key_fine
check_order_preserved messages_per_key received =
    all_of (λ m. offsets_fine received m.partition) received
    && all_of (key_fine messages_per_key received) received

-- `partitions_by_key[key]`: its elements, each once
unfoldable pub partitions_of : List Received → String → List ℕ
unfolding sorted_set
partitions_of sent key = sorted_set (map (λ m. m.partition) (keep (λ m. m.key == key) sent))

-- `check_partition_routing`: the keys of the dict are those of the messages.
unfoldable pub check_partition_routing : List Received → Bool
unfolding partitions_of
check_partition_routing sent = all_of (λ m. nat_eq (length (partitions_of sent m.key)) 1) sent
