-- ===== src/Tests/Tables.antt =====
-- The hash table at concrete tables: capacity 4, a load factor of 75, and keys that are longs.
use fluffy_vm.Prelude.{
  ℕ, zero, suc, ◌+◌, ◌≡◌, refl, arith, true, false, [], ◌∷◌, none, some, get_or, if◌then◌else◌, ◌≤◌,
  All, length,
}
use fluffy_vm.Prelude.Run.{done, crash, null_dereference}
use fluffy_vm.Hashing.{hash_default, hash_xxhash}
use fluffy_vm.Value.{Value, long, le_bytes}
use fluffy_vm.Value.Hash.{hash_of}
use fluffy_vm.Value.Equal.{payload_equal}
use fluffy_vm.Value.Equal.Laws.{IsKey}
use fluffy_vm.Hashtable.{Alloc, home, set_entry}
use fluffy_vm.Hashtable.Valid.{IsChain}
use fluffy_vm.Hashtable.Keys.{LuaTable, is_full, hashtable_set, hashtable_get, hashtable_remove}
use fluffy_vm.Hashtable.Keys.Laws.{
  IsValidTable, hashtable_get-set, hashtable_get-remove, hashtable_set_collision,
}
use fluffy_vm.Hashtable.Next.{visit, keys_of, meets, Once}
use fluffy_vm.Hashtable.Keys.Next.{next_of, hashtable_next_lem}
use fluffy_vm.Tests.Machine.{machine}

abbrev memory : Alloc
memory = record { array_ok = true; moved_ok = λ n. true; pair_ok = true }

abbrev one_entry : LuaTable machine
one_entry = record {
  capacity = 4;
  usage = 1;
  buckets = [] ∷ (record { key = long 1; val = long 10 } ∷ []) ∷ [] ∷ [] ∷ [];
}

long_IsKey : (n : ℕ) → IsKey machine (long n)
long_IsKey n = (tt, tt, tt)

-- The chains of `one_entry`.
one_entry-IsChain :
    (i : ℕ)
    → IsChain
        (hash_of machine)
        (payload_equal machine)
        (IsKey machine)
        4
        i
        (get_or one_entry.buckets i [])
unfolding hash_of hash_default hash_xxhash le_bytes
one_entry-IsChain zero = tt
one_entry-IsChain (suc zero) = (long_IsKey 1, refl)
one_entry-IsChain (suc (suc zero)) = tt
one_entry-IsChain (suc (suc (suc zero))) = tt
one_entry-IsChain (suc (suc (suc (suc i)))) = tt

one_entry-IsValid : IsValidTable machine one_entry
one_entry-IsValid = record {
  power = refl;
  placed = record { positive = omega arith; width = refl; chains = one_entry-IsChain };
}

set_runs :
    hashtable_set machine 75 memory one_entry (long 1) (long 11)
    ≡ done (record {
      capacity = 4;
      usage = 2;
      buckets = [] ∷ (record { key = long 1; val = long 11 } ∷ []) ∷ [] ∷ [] ∷ [];
    })
unfolding hashtable_set set_entry hash_of hash_default hash_xxhash le_bytes payload_equal
set_runs = refl

-- Overwriting in the table with one entry.
hashtable_get-set_example :
    let t' : LuaTable machine = record {
      capacity = 4;
      usage = 2;
      buckets = [] ∷ (record { key = long 1; val = long 11 } ∷ []) ∷ [] ∷ [] ∷ [];
    } in
    IsValidTable machine t'
    × (2 ≡ 1 + 1)
    × ((q : Value ℕ)
        → IsKey machine q
        → hashtable_get machine t' q ≡ (
            if payload_equal machine q (long 1)
            then done (some (long 11))
            else hashtable_get machine one_entry q))
hashtable_get-set_example =
    hashtable_get-set machine 75 memory one_entry _ (long 1) (long 11) one_entry-IsValid
      (long_IsKey 1) tt refl set_runs

hashtable_get-remove_example :
    (t' : LuaTable machine) × (hashtable_remove machine one_entry (long 1) ≡ done t')
    × IsValidTable machine t'
    × (t'.usage ≡ 1)
    × ((q : Value ℕ)
        → IsKey machine q
        → hashtable_get machine t' q ≡ (
            if payload_equal machine q (long 1)
            then done none
            else hashtable_get machine one_entry q))
hashtable_get-remove_example =
    hashtable_get-remove machine one_entry (long 1) one_entry-IsValid (long_IsKey 1)

not_full : is_full machine 75 1 4 ≡ false
unfolding is_full
not_full = refl

other_key : payload_equal machine (long 1) (long 5) ≡ false
unfolding payload_equal
other_key = refl

same_bucket :
    get_or one_entry.buckets (home (hash_of machine) (long 5) 4) []
    ≡ record { key = long 1; val = long 10 } ∷ []
unfolding hash_of hash_default hash_xxhash le_bytes
same_bucket = refl

-- 1 and 5 fall into one bucket of four.
hashtable_set_collision_example :
    hashtable_set machine 75 memory one_entry (long 5) (long 20) ≡ crash null_dereference
hashtable_set_collision_example =
    hashtable_set_collision machine 75 memory one_entry (long 5) (long 20)
      (record { key = long 1; val = long 10 }) one_entry-IsValid tt tt refl not_full same_bucket
      other_key

-- The only key, with room for two more.
hashtable_next_lem_example :
    (visit (next_of machine one_entry) 3 (next_of machine one_entry none)
      ≡ keys_of one_entry.buckets)
    × Once (payload_equal machine) (keys_of one_entry.buckets)
    × All
        (λ k. (v : Value ℕ) × (hashtable_get machine one_entry k ≡ done (some v)))
        (keys_of one_entry.buckets)
    × ((q v : Value ℕ)
        → IsKey machine q
        → hashtable_get machine one_entry q ≡ done (some v)
        → meets (payload_equal machine) q (keys_of one_entry.buckets) ≡ true)
unfolding keys_of
hashtable_next_lem_example = hashtable_next_lem machine one_entry 3 one_entry-IsValid few
  where
    few : length (keys_of one_entry.buckets) ≤ 3
    few = omega arith
