-- ===== src/Hashtable/Laws.antt =====
-- What the operations of src/hashtable.c do to the map that a table stands for.
use fluffy_vm.Prelude.{
  ℕ, zero, suc, ◌+◌, ◌*◌, ◌<◌, ◌≡◌, ◌≢◌, refl, ap, ◌∙◌, arith, Bool, true, false, List, [], ◌∷◌,
  none, some, leb, ◌^◌, if◌then◌else◌, get_or, replicate, length-replicate, Bool-cases, inl, inr,
}
use fluffy_vm.Prelude.Bits.{bit_and-double}
use fluffy_vm.Prelude.Run.{Run, done, throw, crash, null_dereference, >>=-eq-done}
use fluffy_vm.Value.Error.{invalid_capacity}
use fluffy_vm.Hashtable.{
  Pair, Buckets, Table, Alloc, Failure, message, home, set_entry, move_all, resize, new, grow,
  stored, set_key, find, internal_get, get, is_power_of_two,
}
use fluffy_vm.Hashtable.Valid.{KeyLaws, home-lt, IsPlaced, IsValid, view, bucket_at-get_or}
use fluffy_vm.Hashtable.Entry.{set_entry-done, set_entry-ne-throw, set_entry_collision}
use fluffy_vm.Hashtable.Move.{move_all-view}

power_double : (c : ℕ) → is_power_of_two c ≡ true → is_power_of_two (c * 2) ≡ true
power_double c h = ground (arith, bit_and-double c)

power_pos : (c : ℕ) → is_power_of_two c ≡ true → 0 < c
power_pos c h = ground arith

get_or-replicate : {A : Type 0} (n i : ℕ) (a : A) → get_or (replicate n a) i a ≡ a
get_or-replicate zero i a = refl
get_or-replicate (suc n) zero a = refl
get_or-replicate (suc n) (suc i) a = get_or-replicate n i a

module _ {K V : Type 0} (hash : K → ℕ) (equal : K → K → Bool) (Good : K → Type 0) where
  empty-IsPlaced :
      (capacity : ℕ)
      → 0 < capacity
      → IsPlaced {V = V} hash equal Good capacity (replicate capacity [])
  empty-IsPlaced capacity h = record {
    positive = h;
    width = length-replicate capacity [];
    chains = λ i. rw (get_or-replicate {A = List (Pair K V)} capacity i []) tt;
  }

  view-empty :
      (capacity : ℕ) (q : K)
      → view {V = V} hash equal Good (replicate capacity []) capacity q ≡ none
  unfolding find
  view-empty capacity q =
      rw (get_or-replicate {A = List (Pair K V)} capacity (home hash q capacity) [])

  -- `hashtable_get` reads inside the table, and returns what the buckets hold at the key.
  pub get-view :
      (t : Table K V) (q : K)
      → IsValid hash equal Good t
      → get hash equal t q ≡ done (view hash equal Good t.buckets t.capacity q)
  unfolding get internal_get
  get-view t q v = rw (
      bucket_at-get_or hash equal Good t.buckets (home hash q t.capacity)
        (rw v.placed.width (home-lt hash q t.capacity v.placed.positive)))

  module _ (laws : KeyLaws K hash equal Good) where
    resize-done :
        (alloc : Alloc) (t t' : Table K V)
        → IsValid hash equal Good t
        → resize hash equal alloc t (t.capacity * 2) ≡ done t'
        → IsValid hash equal Good t'
          × (t'.usage ≡ t.usage)
          × ((q : K)
              → Good q
              → view hash equal Good t'.buckets t'.capacity q
                ≡ view hash equal Good t.buckets t.capacity q)
    unfolding resize
    resize-done alloc t t' v e = elim (Bool-cases alloc.array_ok) [
      | inl ok ↦
          let c = t.capacity * 2 in
          let e' = rw (power_double t.capacity v.power, ok) at e in
          let (r, m, f) =
            >>=-eq-done (move_all hash equal alloc.moved_ok c t.buckets 0 (replicate c [])) _ e' in
          let same : t' ≡ record t { capacity = c; buckets = r.1 } = cc f in
          let (placed, kept) =
            move_all-view hash equal Good laws alloc.moved_ok t.capacity c t.buckets
              (replicate c []) {r = r} v.placed
              (empty-IsPlaced c (omega (arith, v.placed.positive))) (view-empty c) m in
          rw same (record { power = power_double t.capacity v.power; placed = placed }, refl, kept)
      | inr bad ↦ ground arith
    ]

    grow-done :
        (full : ℕ → ℕ → Bool) (alloc : Alloc) (t t' : Table K V)
        → IsValid hash equal Good t
        → grow hash equal full alloc t ≡ done t'
        → IsValid hash equal Good t'
          × (t'.usage ≡ t.usage)
          × ((q : K)
              → Good q
              → view hash equal Good t'.buckets t'.capacity q
                ≡ view hash equal Good t.buckets t.capacity q)
    unfolding grow
    grow-done full alloc t t' v e = elim (Bool-cases (full t.usage t.capacity)) [
      | inl over ↦ elim (Bool-cases (leb (2 ^ 31) (t.capacity * 2))) [
        | inl large ↦ cc (rw (over, large) at e)
        | inr small ↦ resize-done alloc t t' v (rw (over, small) at e)
      ]
      | inr room ↦ let same : t' ≡ t = cc (rw room at e) in rw same (v, refl, λ q gq. refl)
    ]

    -- `hashtable_new` of a power of two that has its memory returns a valid table that is empty, and
    -- refuses every other capacity with "invalid capacity".
    pub new_lem :
        (moved_ok : ℕ → Bool) (pair_ok : Bool) (capacity : ℕ)
        → let made =
            new hash equal true
              (record { array_ok = true; moved_ok = moved_ok; pair_ok = pair_ok })
              capacity in
          (is_power_of_two capacity ≡ true
            → (t : Table K V) × (made ≡ done t)
              × IsValid hash equal Good t
              × (t.usage ≡ 0)
              × ((q : K) → get hash equal t q ≡ done none))
          × (is_power_of_two capacity ≡ false → made ≡ throw (message invalid_capacity))
    unfolding new resize move_all
    new_lem moved_ok pair_ok capacity = (
      λ p.
          let t : Table K V = record {
            capacity = capacity;
            usage = 0;
            buckets = replicate capacity [];
          } in
          let valid : IsValid hash equal Good t = record {
            power = p;
            placed = empty-IsPlaced capacity (power_pos capacity p);
          } in
          (t, ground arith, valid, refl, λ q. get-view t q valid ∙ ap done (view-empty capacity q)),
      λ p. ground arith,
    )

    stored-done :
        (t t' : Table K V) (m : Run Failure (Buckets K V))
        → ((f : Failure) → m ≢ throw f)
        → stored hash equal t m ≡ done t'
        → (bs : Buckets K V) × (m ≡ done bs) × (t' ≡ record t { usage = t.usage + 1; buckets = bs })
    unfolding stored
    stored-done t t' (done bs) h e = (bs, refl, cc)
    stored-done t t' (throw f) h e = absurd (h f refl)
    stored-done t t' (crash f) h e = cc

    -- A successful `hashtable_set` whose new pair has its memory: the table stays valid, also when it
    -- was resized, its `usage` grows by one, and `hashtable_get` returns the value at every key that
    -- equals `k` and what it returned before at every other.
    pub get-set :
        (full : ℕ → ℕ → Bool) (alloc : Alloc) (t t' : Table K V) (k : K) (x : V)
        → IsValid hash equal Good t
        → Good k
        → alloc.pair_ok ≡ true
        → set_key hash equal full alloc t k x ≡ done t'
        → IsValid hash equal Good t'
          × (t'.usage ≡ t.usage + 1)
          × ((q : K)
              → Good q
              → get hash equal t' q ≡ (if equal q k then done (some x) else get hash equal t q))
    unfolding set_key
    get-set full alloc t t' k x v gk ok e =
        let (t₁, g, s) = >>=-eq-done (grow hash equal full alloc t) _ e in
        let (v₁, u₁, kept) = grow-done full alloc t t₁ v g in
        let (bs, m, same) =
          stored-done t₁ t' (set_entry hash equal alloc.pair_ok t₁.buckets t₁.capacity k x)
            (λ f.
              rw ok
                (set_entry-ne-throw hash equal Good laws t₁.buckets t₁.capacity k x f v₁.placed))
            s in
        let (placed, holds) =
          set_entry-done hash equal Good laws alloc.pair_ok t₁.buckets bs t₁.capacity k x gk
            v₁.placed m in
        let valid : IsValid hash equal Good (record t₁ { usage = t₁.usage + 1; buckets = bs }) =
          record { power = v₁.power; placed = placed } in
        rw same (
          valid,
          ap (λ (n : ℕ). n + 1) u₁,
          λ q gq. rw (get-view _ q valid, get-view t q v, holds q gq, kept q gq) (ground arith),
        )

    -- `hashtable_set` without a resize, in a bucket that holds a pair with another key: the process
    -- dies of a null dereference, since `pair_write_next` reads the `next` of the new pair.
    pub set_collision :
        (full : ℕ → ℕ → Bool) (alloc : Alloc) (t : Table K V) (k : K) (x : V) (p : Pair K V)
        → IsValid hash equal Good t
        → alloc.pair_ok ≡ true
        → full t.usage t.capacity ≡ false
        → get_or t.buckets (home hash k t.capacity) [] ≡ p ∷ []
        → equal p.key k ≡ false
        → set_key hash equal full alloc t k x ≡ crash null_dereference
    unfolding set_key grow stored
    set_collision full alloc t k x p v ok room here ne =
        rw (room, ok)
          (rw
            (
              set_entry_collision hash equal Good laws t.buckets t.capacity k x p v.placed here ne,
              stored,
            )
            refl)
