-- ===== src/Hashtable/Entry.antt =====
-- `set_entry` of src/hashtable.c on buckets of at most one pair.
use fluffy_vm.Prelude.{
  All, get_or-set, ℕ, ◌<◌, ◌≡◌, ◌≢◌, arith, Bool, true, false, List, [], ◌∷◌, some, if◌then◌else◌,
  length, get_or, set, length-set,
}
use fluffy_vm.Prelude.Run.{done, throw, crash, null_dereference, >>=-eq-done}
use fluffy_vm.Hashtable.{Pair, Buckets, Failure, matches, home, walk, set_entry, find}
use fluffy_vm.Hashtable.Valid.{KeyLaws, home-lt, IsChain, IsPlaced, view, bucket_at-get_or}

module _ {K V : Type 0} (hash : K → ℕ) (equal : K → K → Bool) (Good : K → Type 0) where
  -- A chain with at most one pair comes back as the one new pair: it was empty, or its key matched.
  walk-done :
      (ok : Bool) (k : K) (v : V) (capacity i : ℕ) (c c' : List (Pair K V))
      → IsChain hash equal Good capacity i c
      → walk hash equal ok k v c ≡ done c'
      → (c' ≡ record { key = k; val = v } ∷ []) × All (λ p. matches hash equal k p ≡ true) c
  unfolding walk
  walk-done ok k v capacity i [] c' h e = (ground arith, tt)
  walk-done ok k v capacity i (p ∷ []) c' h e = (ground arith, (ground arith, tt))
  walk-done ok k v capacity i (p ∷ q ∷ ps) c' h e = elim h [ ]

  module _ (laws : KeyLaws K hash equal Good) where
    -- One pair in place of a chain that holds no other key.
    find-walk :
        (k : K) (v : V) (capacity i : ℕ) (c : List (Pair K V)) (q : K)
        → Good k
        → Good q
        → IsChain hash equal Good capacity i c
        → All (λ p. matches hash equal k p ≡ true) c
        → find hash equal (hash q) (equal q) (record { key = k; val = v } ∷ [])
          ≡ (if equal q k then some v else find hash equal (hash q) (equal q) c)
    unfolding find
    find-walk k v capacity i [] q gk gq h m = ground (arith, laws.hash_congr q k)
    find-walk k v capacity i (p ∷ []) q gk gq h m =
        ground (arith, laws.hash_congr q k gq gk, laws.equal_trans q p.key k gq h.0 gk)
    find-walk k v capacity i (p ∷ r ∷ ps) q gk gq h m = elim h [ ]

    pub set_entry-split :
        (ok : Bool) (bs bs' : Buckets K V) (capacity : ℕ) (k : K) (v : V)
        → IsPlaced hash equal Good capacity bs
        → set_entry hash equal ok bs capacity k v ≡ done bs'
        → (bs' ≡ set bs (home hash k capacity) (record { key = k; val = v } ∷ []))
          × All (λ p. matches hash equal k p ≡ true) (get_or bs (home hash k capacity) [])
    unfolding set_entry
    set_entry-split ok bs bs' capacity k v pl e =
        let i = home hash k capacity in
        let e' =
          rw
            (bucket_at-get_or hash equal Good bs i
              (rw pl.width (home-lt hash k capacity pl.positive)))
            at e in
        let (c', w, f) = >>=-eq-done (walk hash equal ok k v (get_or bs i [])) _ e' in
        let (one, m) = walk-done ok k v capacity i (get_or bs i []) c' (pl.chains i) w in (cc, m)

    -- What a successful `set_entry` leaves: buckets in place, which hold `v` at every key that equals
    -- `k` and what they held at every other.
    pub set_entry-done :
        (ok : Bool) (bs bs' : Buckets K V) (capacity : ℕ) (k : K) (v : V)
        → Good k
        → IsPlaced hash equal Good capacity bs
        → set_entry hash equal ok bs capacity k v ≡ done bs'
        → IsPlaced hash equal Good capacity bs'
          × ((q : K)
              → Good q
              → view hash equal Good bs' capacity q
                ≡ (if equal q k then some v else view hash equal Good bs capacity q))
    set_entry-done ok bs bs' capacity k v gk pl e =
        let (new_, m) = set_entry-split ok bs bs' capacity k v pl e in
        let i = home hash k capacity in
        let lt : i < length bs = rw pl.width (home-lt hash k capacity pl.positive) in
        rw new_ (
          record {
            positive = pl.positive;
            width = rw length-set pl.width;
            chains = λ j.
                rw (get_or-set bs i j (record { key = k; val = v } ∷ []) [] lt)
                  (ground (arith, pl.chains j));
          },
          λ q gq.
              rw (get_or-set bs i (home hash q capacity) (record { key = k; val = v } ∷ []) [] lt) (
                ground (
                  arith,
                  find-walk k v capacity i (get_or bs i []) q gk gq (pl.chains i) m,
                  laws.hash_congr q k gq gk,
                )),
        )

    walk-ne-throw :
        (k : K) (v : V) (capacity i : ℕ) (c : List (Pair K V)) (f : Failure)
        → IsChain hash equal Good capacity i c
        → walk hash equal true k v c ≢ throw f
    unfolding walk
    walk-ne-throw k v capacity i [] f h = ground arith
    walk-ne-throw k v capacity i (p ∷ []) f h = ground arith
    walk-ne-throw k v capacity i (p ∷ r ∷ ps) f h = elim h [ ]

    -- With memory for a pair `set_entry` does not fail: it returns, or the process dies.
    pub set_entry-ne-throw :
        (bs : Buckets K V) (capacity : ℕ) (k : K) (v : V) (f : Failure)
        → IsPlaced hash equal Good capacity bs
        → set_entry hash equal true bs capacity k v ≢ throw f
    unfolding set_entry
    set_entry-ne-throw bs capacity k v f pl =
        let i = home hash k capacity in
        rw
          (bucket_at-get_or hash equal Good bs i
            (rw pl.width (home-lt hash k capacity pl.positive)))
          (ground (arith, walk-ne-throw k v capacity i (get_or bs i []) f (pl.chains i)))

    -- A bucket whose one pair has another key: the write of `next` behind it is a null dereference.
    pub set_entry_collision :
        (bs : Buckets K V) (capacity : ℕ) (k : K) (v : V) (p : Pair K V)
        → IsPlaced hash equal Good capacity bs
        → get_or bs (home hash k capacity) [] ≡ p ∷ []
        → equal p.key k ≡ false
        → set_entry hash equal true bs capacity k v ≡ crash null_dereference
    unfolding set_entry walk
    set_entry_collision bs capacity k v p pl here ne =
        let i = home hash k capacity in
        rw
          (
            bucket_at-get_or hash equal Good bs i
                (rw pl.width (home-lt hash k capacity pl.positive)),
            here,
          )
          (ground arith)
