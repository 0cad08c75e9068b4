-- ===== src/Hashtable/Removal.antt =====
-- What `hashtable_remove` of src/hashtable.c does to the map that a table stands for.
use fluffy_vm.Prelude.{
  ℕ, ◌<◌, ◌≡◌, refl, arith, Bool, List, [], ◌∷◌, none, if◌then◌else◌, length, get_or, set,
  length-set, get_or-set,
}
use fluffy_vm.Prelude.Run.{done}
use fluffy_vm.Hashtable.{Pair, Table, home, matches, find, get, remove, remove_walk}
use fluffy_vm.Hashtable.Valid.{KeyLaws, home-lt, IsChain, IsValid, bucket_at-get_or}
use fluffy_vm.Hashtable.Laws.{get-view}

module _ {K V : Type 0} (hash : K → ℕ) (equal : K → K → Bool) (Good : K → Type 0)
    (laws : KeyLaws K hash equal Good) where
  -- What is left of a chain of at most one pair.
  abbrev left : K → List (Pair K V) → List (Pair K V)
  left k [] = []
  left k (p ∷ ps) = if matches hash equal k p then [] else p ∷ ps

  remove-split :
      (k : K) (capacity i : ℕ) (c : List (Pair K V))
      → IsChain hash equal Good capacity i c
      → remove_walk hash equal k c ≡ done (left k c)
  unfolding remove_walk
  remove-split k capacity i [] h = refl
  remove-split k capacity i (p ∷ []) h = ground arith
  remove-split k capacity i (p ∷ r ∷ ps) h = elim h [ ]

  find-removed :
      (k q : K) (capacity i : ℕ) (c : List (Pair K V))
      → Good k
      → Good q
      → IsChain hash equal Good capacity i c
      → IsChain hash equal Good capacity i (left k c)
        × (find hash equal (hash q) (equal q) (left k c)
            ≡ (if equal q k then none else find hash equal (hash q) (equal q) c))
  unfolding find
  find-removed k q capacity i [] gk gq h = (tt, ground arith)
  find-removed k q capacity i (p ∷ []) gk gq h =
      let at_key = laws.equal_trans q p.key k gq h.0 gk in
      let from_key = laws.equal_trans p.key q k h.0 gq gk in
      let turned = laws.equal_symm q p.key gq h.0 in
      let hashed = laws.hash_congr p.key k h.0 gk in
      (ground arith, ground (arith, laws.hash_congr q p.key gq h.0))
  find-removed k q capacity i (p ∷ r ∷ ps) gk gq h = elim h [ ]

  -- `hashtable_remove` on a valid table always returns, the table stays valid, `hashtable_get` finds
  -- nothing at the keys that equal `k` and what it found before at every other, and `usage` and the
  -- capacity are unchanged.
  pub get-remove :
      (t : Table K V) (k : K)
      → IsValid hash equal Good t
      → Good k
      → (t' : Table K V) × (remove hash equal t k ≡ done t')
        × IsValid hash equal Good t'
        × (t'.usage ≡ t.usage)
        × (t'.capacity ≡ t.capacity)
        × ((q : K)
            → Good q
            → get hash equal t' q ≡ (if equal q k then done none else get hash equal t q))
  unfolding remove
  get-remove t k v gk =
      let i = home hash k t.capacity in
      let c = get_or t.buckets i [] in
      let lt : i < length t.buckets =
        rw v.placed.width (home-lt hash k t.capacity v.placed.positive) in
      let t' : Table K V = record t { buckets = set t.buckets i (left k c) } in
      let valid : IsValid hash equal Good t' = record {
        power = v.power;
        placed = record {
          positive = v.placed.positive;
          width = rw length-set v.placed.width;
          chains = λ j. rw (get_or-set t.buckets i j (left k c) [] lt) (
              ground (
                arith,
                v.placed.chains j,
                (find-removed k k t.capacity i c gk gk (v.placed.chains i)).0,
              ));
        };
      } in
      (
        t',
        rw
            (
              bucket_at-get_or hash equal Good t.buckets i lt,
              remove-split k t.capacity i c (v.placed.chains i),
            )
            refl,
        valid,
        refl,
        refl,
        λ q gq.
            rw
              (
                get-view hash equal Good t' q valid,
                get-view hash equal Good t q v,
                get_or-set t.buckets i (home hash q t.capacity) (left k c) [] lt,
              )
              (ground (
                arith,
                (find-removed k q t.capacity i c gk gq (v.placed.chains i)).1,
                laws.hash_congr q k gq gk,
              )),
      )
