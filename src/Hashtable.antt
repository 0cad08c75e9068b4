-- ===== src/Hashtable.antt =====
-- src/hashtable.c: the chained hash table behind a Lua table, over the hash and the equality of its
-- keys. `Keys` instantiates them with `value_hash_code` and `value_equals`. Every operation holds the
-- table's lock from beginning to end, so its calls follow one another.
pub mod Keys
pub mod Valid
pub mod Entry
pub mod Move
pub mod Laws
pub mod Removal
pub mod Next
use fluffy_vm.Prelude.{
  ℕ, suc, ◌+◌, ◌-◌, ◌*◌, ◌^◌, Bool, true, false, not, ◌&&◌, List, [], ◌∷◌, ◌++◌, Option, none, some,
  bit_and, ◌==◌, ltb, leb, if◌then◌else◌, get_elem?, set, replicate, drop,
}
use fluffy_vm.Prelude.Run.{
  Run, done, throw, crash, null_dereference, out_of_bounds, arithmetic_overflow, ◌>>=◌, ◌>>◌,
}
use fluffy_vm.Value.Error.{StaticString, out_of_memory, invalid_capacity}

-- `struct hashtable_pair`; its `next` is the rest of the chain.
pub record Pair (K V : Type 0) : Type 0 where
  pub key : K
  pub val : V

abbrev pub Buckets : Type 0 → Type 0 → Type 0
Buckets K V = List (List (Pair K V))

-- `struct hashtable`, but for its lock and its load factor.
pub record Table (K V : Type 0) : Type 0 where
  pub capacity : ℕ
  pub usage : ℕ
  pub buckets : Buckets K V

-- Which allocations of a call succeed: of the new array, of the pair for each entry that is moved to
-- it, in order, and of the pair for the new entry.
pub record Alloc : Type 0 where
  pub array_ok : Bool
  pub moved_ok : ℕ → Bool
  pub pair_ok : Bool

-- Why an operation returns false: with a message, or with none.
pub data Failure : Type 0 where
  message : StaticString → Failure
  silent : Failure

-- `desired && !(desired & (desired - 1))`
abbrev pub is_power_of_two : ℕ → Bool
is_power_of_two n = not (n == 0) && bit_and n (n - 1) == 0

-- `hash & (capacity - 1)`
abbrev pub home : {K : Type 0} → (K → ℕ) → K → ℕ → ℕ
home hash k capacity = bit_and (hash k) (capacity - 1)

module _ {K V : Type 0} (hash : K → ℕ) (equal : K → K → Bool) where
  -- `hash == hash2 && value_equals(current->key, key)`
  abbrev pub matches : K → Pair K V → Bool
  matches k p = hash k == hash p.key && equal p.key k

  -- `table[index]`
  unfoldable pub bucket_at : Buckets K V → ℕ → Run Failure (List (Pair K V))
  bucket_at bs i = elim (get_elem? bs i) [ none ↦ crash out_of_bounds | some c ↦ done c ]

  -- `new_pair`
  new_pair : Bool → K → V → Run Failure (Pair K V)
  new_pair ok k v = if ok then done (record { key = k; val = v }) else throw (message out_of_memory)

  -- The end of a chain that has a pair `prev`: `pair_write_next(prev, pair)` reads
  -- `pair->next->gc_this`, and `next` of a new pair is NULL.
  write_next : Run Failure (Pair K V) → Run Failure (List (Pair K V))
  write_next m = do pair ← m; crash null_dereference

  -- The walk of `set_entry` behind the first pair.
  walk_from : Bool → K → V → List (Pair K V) → Run Failure (List (Pair K V))
  unfolding new_pair write_next
  walk_from ok k v [] = write_next (new_pair ok k v)
  walk_from ok k v (p ∷ ps) =
      let rest = walk_from ok k v ps in
      if matches k p then done (record { key = k; val = v } ∷ ps) else do ps' ← rest; done (p ∷ ps')

  -- The chain after `set_entry`, from its first pair.
  walk : Bool → K → V → List (Pair K V) → Run Failure (List (Pair K V))
  unfolding walk_from new_pair
  walk ok k v [] = do pair ← new_pair ok k v; done (pair ∷ [])
  walk ok k v (p ∷ ps) =
      if matches k p
      then done (record { key = k; val = v } ∷ ps)
      else do ps' ← walk_from ok k v ps; done (p ∷ ps')

  unfoldable pub set_entry : Bool → Buckets K V → ℕ → K → V → Run Failure (Buckets K V)
  unfolding bucket_at walk
  set_entry ok bs capacity k v = do
    chain ← bucket_at bs (home hash k capacity)
    chain' ← walk ok k v chain
    done (set bs (home hash k capacity) chain')

  -- The loops of `resize`: each chain of the old table in turn, from its first pair. `n` counts the
  -- pairs that were moved.
  move_chain : (ℕ → Bool) → ℕ → List (Pair K V) → ℕ → Buckets K V → Run Failure (ℕ × Buckets K V)
  move_chain ok capacity [] n bs = done (n, bs)
  move_chain ok capacity (p ∷ ps) n bs = do
    bs' ← set_entry (ok n) bs capacity p.key p.val
    move_chain ok capacity ps (n + 1) bs'

  unfoldable pub move_all :
      (ℕ → Bool) → ℕ → Buckets K V → ℕ → Buckets K V → Run Failure (ℕ × Buckets K V)
  unfolding move_chain
  move_all ok capacity [] n bs = done (n, bs)
  move_all ok capacity (c ∷ cs) n bs = do
    (n', bs') ← move_chain ok capacity c n bs
    move_all ok capacity cs n' bs'

  unfoldable pub resize : Alloc → Table K V → ℕ → Run Failure (Table K V)
  unfolding move_all
  resize alloc t desired =
      if not (is_power_of_two desired)
      then throw (message invalid_capacity)
      else if not alloc.array_ok
      then throw (message out_of_memory)
      else do
        (n, bs) ← move_all alloc.moved_ok desired t.buckets 0 (replicate desired [])
        done (record t { capacity = desired; buckets = bs })

  -- `object_ok` is the allocation of the table itself. `this->table` is NULL until `resize` returns.
  unfoldable pub new : Bool → Alloc → ℕ → Run Failure (Table K V)
  new object_ok alloc initial_capacity =
      if not (ltb 0 initial_capacity && bit_and initial_capacity (initial_capacity - 1) == 0)
      then throw (message invalid_capacity)
      else if not object_ok
      then throw (message out_of_memory)
      else resize alloc (record { capacity = 0; usage = 0; buckets = [] }) initial_capacity

  -- `full usage capacity` is the test `usage + 1 >= (capacity * loadFactor) / 100`, in doubles; the
  -- capacity is an int, whose overflow C does not define.
  grow : (ℕ → ℕ → Bool) → Alloc → Table K V → Run Failure (Table K V)
  unfolding resize
  grow full alloc t =
      if full t.usage t.capacity
      then (if leb (2 ^ 31) (t.capacity * 2)
          then crash arithmetic_overflow
          else resize alloc t (t.capacity * 2))
      else done t

  -- The result of `set_entry` is not looked at.
  stored : Table K V → Run Failure (Buckets K V) → Run Failure (Table K V)
  stored t (done bs) = done (record t { usage = t.usage + 1; buckets = bs })
  stored t (throw e) = done (record t { usage = t.usage + 1 })
  stored t (crash f) = crash f

  unfoldable pub set_key : (ℕ → ℕ → Bool) → Alloc → Table K V → K → V → Run Failure (Table K V)
  unfolding grow stored
  set_key full alloc t k v = do
    t' ← grow full alloc t
    stored t' (set_entry alloc.pair_ok t'.buckets t'.capacity k v)

  -- The walk of `internal_get`, with the test that its caller passes.
  unfoldable pub find : ℕ → (K → Bool) → List (Pair K V) → Option V
  find h test [] = none
  find h test (p ∷ ps) = if h == hash p.key && test p.key then some p.val else find h test ps

  unfoldable pub internal_get : Table K V → ℕ → (K → Bool) → Run Failure (Option V)
  unfolding bucket_at find
  internal_get t h test = do
    chain ← bucket_at t.buckets (bit_and h (t.capacity - 1))
    done (find h test chain)

  unfoldable pub get : Table K V → K → Run Failure (Option V)
  unfolding internal_get
  get t k = internal_get t (hash k) (equal k)

  -- The walk of `hashtable_remove` behind the first pair: `pair_write_next(prev, NULL)` reads
  -- `NULL->next`.
  remove_from : K → List (Pair K V) → List (Pair K V) → Run Failure (List (Pair K V))
  remove_from k [] chain = done chain
  remove_from k (p ∷ ps) chain =
      if matches k p then crash null_dereference else remove_from k ps chain

  -- A first pair that matches takes the whole chain with it.
  remove_walk : K → List (Pair K V) → Run Failure (List (Pair K V))
  unfolding remove_from
  remove_walk k [] = done []
  remove_walk k (p ∷ ps) = if matches k p then done [] else remove_from k ps (p ∷ ps)

  unfoldable pub remove : Table K V → K → Run Failure (Table K V)
  unfolding bucket_at remove_walk
  remove t k = do
    chain ← bucket_at t.buckets (home hash k t.capacity)
    chain' ← remove_walk k chain
    done (record t { buckets = set t.buckets (home hash k t.capacity) chain' })

  -- `hashtable_next` in one bucket: the key after the pair that equals `key`, whether one was found
  -- (there or before), or the first key when it was found before.
  next_in : K → Bool → List (Pair K V) → Bool × Option K
  next_in key found [] = (found, none)
  next_in key true (p ∷ ps) = (true, some p.key)
  next_in key false (p ∷ ps) = next_in key (equal p.key key) ps

  next_from : K → Bool → Buckets K V → Option K
  unfolding next_in
  next_from key found [] = none
  next_from key found (c ∷ cs) =
      let (found', answer) = next_in key found c in
      let rest = next_from key found' cs in elim answer [ some k ↦ some k | none ↦ rest ]

  first_key : Buckets K V → Option K
  first_key [] = none
  first_key ([] ∷ cs) = first_key cs
  first_key ((p ∷ ps) ∷ cs) = some p.key

  -- No key asks for the first one. The result is none at the end.
  unfoldable pub next_key : Table K V → Option K → Option K
  unfolding next_from first_key
  next_key t none = first_key t.buckets
  next_key t (some key) = next_from key false (drop (home hash key t.capacity) t.buckets)
