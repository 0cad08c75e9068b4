-- ===== src/Hashtable/Next.antt =====
-- `hashtable_next` of src/hashtable.c: what a caller meets that asks for one key after the other.
use fluffy_vm.Prelude.{
  ℕ, zero, suc, ◌-◌, ◌≤◌, ◌<◌, ◌≡◌, bit_and, Bool-cases, inl, inr, refl, ap, ◌∙◌, arith, Bool, true,
  false, ◌||◌, List, [], ◌∷◌, ◌++◌, Option, none, some, map, All, length, get_or, drop,
}
use fluffy_vm.Prelude.Run.{done}
use fluffy_vm.Hashtable.{
  Pair, Buckets, Table, home, find, get, next_in, next_from, first_key, next_key,
}
use fluffy_vm.Hashtable.Valid.{KeyLaws, IsChain, IsValid, view}
use fluffy_vm.Hashtable.Laws.{get-view}

-- The head and the tail of what is left behind `i` elements.
drop-parts :
    {A : Type 0} (xs ys : List A) (i : ℕ) (x d : A)
    → drop i xs ≡ x ∷ ys
    → (get_or xs i d ≡ x) × (drop (suc i) xs ≡ ys)
drop-parts [] ys zero x d h = cc
drop-parts [] ys (suc i) x d h = cc
drop-parts (z ∷ zs) ys zero x d h = (cc h, cc h)
drop-parts (z ∷ zs) ys (suc i) x d h = drop-parts zs ys i x d h

-- The loop of a caller, from the key that it has; `fuel` bounds its rounds.
unfoldable pub visit : {K : Type 0} → (Option K → Option K) → ℕ → Option K → List K
visit next fuel none = []
visit next zero (some k) = []
visit next (suc fuel) (some k) = k ∷ visit next fuel (next (some k))

-- Whether a key is equal to one of a list.
unfoldable pub meets : {K : Type 0} → (K → K → Bool) → K → List K → Bool
meets equal q [] = false
meets equal q (k ∷ ks) = equal q k || meets equal q ks

meets-append :
    {K : Type 0} (equal : K → K → Bool) (q : K) (xs ys : List K)
    → meets equal q ys ≡ true
    → meets equal q (xs ++ ys) ≡ true
unfolding meets
meets-append equal q [] ys h = h
meets-append equal q (x ∷ xs) ys h = rw (meets-append equal q xs ys h) (ground arith)

-- No key of the list is equal to one behind it.
unfoldable pub Once : {K : Type 0} → (K → K → Bool) → List K → Type 0
Once equal [] = Unit
Once equal (k ∷ ks) = (meets equal k ks ≡ false) × Once equal ks

module _ {K V : Type 0} where
  unfoldable pub keys_of : Buckets K V → List K
  keys_of [] = []
  keys_of (c ∷ cs) = map (λ p. p.key) c ++ keys_of cs

module _ {K V : Type 0} (hash : K → ℕ) (equal : K → K → Bool) (Good : K → Type 0)
    (laws : KeyLaws K hash equal Good) where
  -- Behind the key that was found comes the first key of the other buckets.
  next_from-found :
      (key : K) (cs : Buckets K V) → next_from hash equal key true cs ≡ first_key hash equal cs
  unfolding next_from next_in first_key
  next_from-found key [] = refl
  next_from-found key ([] ∷ cs) = next_from-found key cs
  next_from-found key ((p ∷ ps) ∷ cs) = refl

  next_key-found :
      (t : Table K V) (p : Pair K V) (cs : Buckets K V)
      → Good p.key
      → drop (home hash p.key t.capacity) t.buckets ≡ (p ∷ []) ∷ cs
      → next_key hash equal t (some p.key) ≡ first_key hash equal cs
  unfolding next_key next_from next_in
  next_key-found t p cs g h = rw (h, laws.equal_refl p.key g) (next_from-found p.key cs)

  bucket-IsChain :
      (t : Table K V) (i : ℕ) (c : List (Pair K V))
      → get_or t.buckets i [] ≡ c
      → IsValid hash equal Good t
      → IsChain hash equal Good t.capacity i c
  bucket-IsChain t i c here v = rw⁻¹ here (v.placed.chains i)

  found_at :
      (t : Table K V) (i : ℕ) (p : Pair K V)
      → get_or t.buckets i [] ≡ p ∷ []
      → Good p.key
      → home hash p.key t.capacity ≡ i
      → IsValid hash equal Good t
      → get hash equal t p.key ≡ done (some p.val)
  unfolding find
  found_at t i p here good place v =
      get-view hash equal Good t p.key v
      ∙ rw (place, here, laws.equal_refl p.key good) (ground arith)

  -- A caller's loop, from the first key of bucket `i` on, with a step that is `hashtable_next` at the keys of
  -- the table.
  visit-first_key :
      (t : Table K V) (next : Option K → Option K) (i fuel : ℕ) (cs : Buckets K V)
      → ((k : K) → Good k → next (some k) ≡ next_key hash equal t (some k))
      → IsValid hash equal Good t
      → drop i t.buckets ≡ cs
      → length (keys_of cs) ≤ fuel
      → (visit next fuel (first_key hash equal cs) ≡ keys_of cs)
        × All (λ k. Good k × ((x : V) × (get hash equal t k ≡ done (some x)))) (keys_of cs)
  unfolding visit keys_of first_key
  visit-first_key t next i fuel [] same v h le = (refl, tt)
  visit-first_key t next i fuel ([] ∷ cs) same v h le =
      visit-first_key t next (suc i) fuel cs same v (drop-parts t.buckets cs i [] [] h).1 le
  visit-first_key t next i zero ((p ∷ []) ∷ cs) same v h le = absurd (omega arith)
  visit-first_key t next i (suc fuel) ((p ∷ []) ∷ cs) same v h le =
      let (here, behind) = drop-parts t.buckets cs i (p ∷ []) [] h in
      let (good, place) = bucket-IsChain t i (p ∷ []) here v in
      let (more, found) = visit-first_key t next (suc i) fuel cs same v behind (omega arith) in
      let step =
        same p.key good ∙ next_key-found t p cs good (ap (λ j. drop j t.buckets) place ∙ h) in
      (
        ap (λ k. p.key ∷ visit next fuel k) step ∙ ap (λ ks. p.key ∷ ks) more,
        ((good, (p.val, found_at t i p here good place v)), found),
      )
  visit-first_key t next i fuel ((p ∷ q ∷ ps) ∷ cs) same v h le =
      let (here, behind) = drop-parts t.buckets cs i (p ∷ q ∷ ps) [] h in
      absurd (bucket-IsChain t i (p ∷ q ∷ ps) here v)

  pub visit-next_key :
      (t : Table K V) (next : Option K → Option K) (fuel : ℕ)
      → next none ≡ next_key hash equal t none
      → ((k : K) → Good k → next (some k) ≡ next_key hash equal t (some k))
      → IsValid hash equal Good t
      → length (keys_of t.buckets) ≤ fuel
      → (visit next fuel (next none) ≡ keys_of t.buckets)
        × All (λ k. Good k × ((x : V) × (get hash equal t k ≡ done (some x)))) (keys_of t.buckets)
  unfolding next_key
  visit-next_key t next fuel first same v le =
      let (met, found) = visit-first_key t next 0 fuel t.buckets same v refl le in
      (ap (λ k. visit next fuel k) first ∙ met, found)

  meets-keys_of :
      (bs : Buckets K V) (i : ℕ) (q : K) (p : Pair K V) (ps : List (Pair K V))
      → get_or bs i [] ≡ p ∷ ps
      → equal q p.key ≡ true
      → meets equal q (keys_of bs) ≡ true
  unfolding meets keys_of
  meets-keys_of [] i q p ps h e = cc
  meets-keys_of ([] ∷ cs) zero q p ps h e = cc
  meets-keys_of ((r ∷ rs) ∷ cs) zero q p ps h e =
      let same : r ≡ p = cc h in
      let at_head : equal q r.key ≡ true = ap (λ k. equal q (k.key)) same ∙ e in rw at_head refl
  meets-keys_of (c ∷ cs) (suc i) q p ps h e =
      meets-append equal q (map (λ r. r.key) c) (keys_of cs) (meets-keys_of cs i q p ps h e)

  -- A chain in which a key is found.
  find-chain :
      (h : ℕ) (q : K) (x : V) (capacity i : ℕ) (c : List (Pair K V))
      → IsChain hash equal Good capacity i c
      → find hash equal h (equal q) c ≡ some x
      → (p : Pair K V) × (c ≡ p ∷ []) × (equal q p.key ≡ true)
  unfolding find
  find-chain h q x capacity i [] w e = cc
  find-chain h q x capacity i (p ∷ []) w e = (p, refl, ground arith)
  find-chain h q x capacity i (p ∷ r ∷ ps) w e = absurd w

  -- Every key that `hashtable_get` finds is one of them.
  pub get-keys_of :
      (t : Table K V) (q : K) (x : V)
      → IsValid hash equal Good t
      → get hash equal t q ≡ done (some x)
      → meets equal q (keys_of t.buckets) ≡ true
  get-keys_of t q x v h =
      let i = home hash q t.capacity in
      let here : view hash equal Good t.buckets t.capacity q ≡ some x =
        cc (get-view hash equal Good t q v) in
      let (p, chain, e) =
        find-chain (hash q) q x t.capacity i (get_or t.buckets i []) (v.placed.chains i) here in
      meets-keys_of t.buckets i q p [] chain e

  -- A key that belongs to a bucket before `j` is equal to none from there on.
  meets-drop :
      (t : Table K V) (q : K) (j : ℕ) (cs : Buckets K V)
      → IsValid hash equal Good t
      → Good q
      → home hash q t.capacity < j
      → drop j t.buckets ≡ cs
      → meets equal q (keys_of cs) ≡ false
  unfolding meets keys_of
  meets-drop t q j [] v g lt h = refl
  meets-drop t q j ([] ∷ cs) v g lt h =
      meets-drop t q (suc j) cs v g (omega arith) (drop-parts t.buckets cs j [] [] h).1
  meets-drop t q j ((p ∷ []) ∷ cs) v g lt h =
      let (here, behind) = drop-parts t.buckets cs j (p ∷ []) [] h in
      let (good, place) = bucket-IsChain t j (p ∷ []) here v in
      let others = meets-drop t q (suc j) cs v g (omega arith) behind in
      elim (Bool-cases (equal q p.key)) [
        | inl e ↦
            let same : home hash q t.capacity ≡ home hash p.key t.capacity =
              ap (λ (n : ℕ). bit_and n (t.capacity - 1)) (laws.hash_congr q p.key g good e) in
            absurd (omega (arith, same, place))
        | inr e ↦ rw (e, others) refl
      ]
  meets-drop t q j ((p ∷ r ∷ ps) ∷ cs) v g lt h =
      let (here, behind) = drop-parts t.buckets cs j (p ∷ r ∷ ps) [] h in
      absurd (bucket-IsChain t j (p ∷ r ∷ ps) here v)

  pub keys_of-Once :
      (t : Table K V) (j : ℕ) (cs : Buckets K V)
      → IsValid hash equal Good t
      → drop j t.buckets ≡ cs
      → Once equal (keys_of cs)
  unfolding Once keys_of
  keys_of-Once t j [] v h = tt
  keys_of-Once t j ([] ∷ cs) v h = keys_of-Once t (suc j) cs v (drop-parts t.buckets cs j [] [] h).1
  keys_of-Once t j ((p ∷ []) ∷ cs) v h =
      let (here, behind) = drop-parts t.buckets cs j (p ∷ []) [] h in
      let (good, place) = bucket-IsChain t j (p ∷ []) here v in
      (
        meets-drop t p.key (suc j) cs v good (omega (arith, place)) behind,
        keys_of-Once t (suc j) cs v behind,
      )
  keys_of-Once t j ((p ∷ r ∷ ps) ∷ cs) v h =
      let (here, behind) = drop-parts t.buckets cs j (p ∷ r ∷ ps) [] h in
      absurd (bucket-IsChain t j (p ∷ r ∷ ps) here v)
