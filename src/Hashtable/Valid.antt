-- ===== src/Hashtable/Valid.antt =====
-- What the hash table of src/hashtable.c asks of its keys, the shape of its buckets, and the map that
-- they stand for.
use fluffy_vm.Prelude.{ℕ, ◌<◌, ◌≡◌, Bool, true, List, [], ◌∷◌, Option, length, get_or, arith, ◌-◌}
use fluffy_vm.Prelude.Bits.{bit_and-le}
use fluffy_vm.Prelude.{get_elem?-eq-get_or}
use fluffy_vm.Prelude.Run.{done}
use fluffy_vm.Hashtable.{Pair, Buckets, Table, home, bucket_at, find, is_power_of_two}

-- Equality and hash fit together on the keys that satisfy `Good`.
pub record KeyLaws (K : Type 0) (hash : K → ℕ) (equal : K → K → Bool) (Good : K → Type 0)
    : Type 0 where
  pub equal_refl : (a : K) → Good a → equal a a ≡ true
  pub equal_symm : (a b : K) → Good a → Good b → equal a b ≡ equal b a
  pub equal_trans :
      (a b c : K)
      → Good a
      → Good b
      → Good c
      → equal a b ≡ true
      → equal b c ≡ true
      → equal a c ≡ true
  pub hash_congr : (a b : K) → Good a → Good b → equal a b ≡ true → hash a ≡ hash b

pub home-lt :
    {K : Type 0} (hash : K → ℕ) (k : K) (capacity : ℕ)
    → 0 < capacity
    → home hash k capacity < capacity
home-lt hash k capacity h = omega (arith, bit_and-le (hash k) (capacity - 1))

module _ {K V : Type 0} (hash : K → ℕ) (equal : K → K → Bool) (Good : K → Type 0) where
  -- A chain of bucket `i`: at most one pair, with a good key that belongs there.
  abbrev pub IsChain : ℕ → ℕ → List (Pair K V) → Type 0
  IsChain capacity i [] = Unit
  IsChain capacity i (p ∷ []) = Good p.key × (home hash p.key capacity ≡ i)
  IsChain capacity i (p ∷ q ∷ ps) = ⊥

  pub record IsPlaced (capacity : ℕ) (bs : Buckets K V) : Type 0 where
    pub positive : 0 < capacity
    pub width : length bs ≡ capacity
    pub chains : (i : ℕ) → IsChain capacity i (get_or bs i [])

  pub record IsValid (t : Table K V) : Type 0 where
    pub power : is_power_of_two t.capacity ≡ true
    pub placed : IsPlaced t.capacity t.buckets

  -- What the buckets hold at a key.
  abbrev pub view : Buckets K V → ℕ → K → Option V
  view bs capacity q = find hash equal (hash q) (equal q) (get_or bs (home hash q capacity) [])

  pub bucket_at-get_or :
      (bs : Buckets K V) (i : ℕ) → i < length bs → bucket_at hash equal bs i ≡ done (get_or bs i [])
  unfolding bucket_at
  bucket_at-get_or bs i h = rw (get_elem?-eq-get_or bs i [] h, bucket_at)
