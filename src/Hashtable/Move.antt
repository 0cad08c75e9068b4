-- ===== src/Hashtable/Move.antt =====
-- `resize` of src/hashtable.c: the entries of the old table are set in the new one, in order.
use fluffy_vm.Prelude.{
  ℕ, zero, suc, ◌+◌, ◌<◌, ◌≡◌, ◌≢◌, refl, ◌∙◌, arith, Bool, List, [], ◌∷◌, Option, none, some,
  if◌then◌else◌, get_or, All,
}
use fluffy_vm.Prelude.Run.{done, >>=-eq-done}
use fluffy_vm.Hashtable.{Pair, Buckets, home, set_entry, move_chain, move_all, find}
use fluffy_vm.Hashtable.Valid.{KeyLaws, IsChain, IsPlaced, view}
use fluffy_vm.Hashtable.Entry.{set_entry-done}

zero_add : (i j : ℕ) → j ≡ 0 + i → j ≡ i
zero_add i j e = omega arith

module _ {V : Type 0} where
  abbrev or_else : Option V → Option V → Option V
  or_else (some v) o = some v
  or_else none o = o

  or_else-none : (o : Option V) → or_else o none ≡ o
  or_else-none none = refl
  or_else-none (some v) = refl

  or_else_assoc : (a b c : Option V) → or_else a (or_else b c) ≡ or_else (or_else a b) c
  or_else_assoc none b c = refl
  or_else_assoc (some a) b c = refl

module _ {K V : Type 0} (hash : K → ℕ) (equal : K → K → Bool) (Good : K → Type 0) where
  -- The last entry of a chain, and of all chains, at a key.
  last : K → List (Pair K V) → Option V
  last q [] = none
  last q (p ∷ ps) = or_else (last q ps) (if equal q p.key then some p.val else none)

  last_all : K → Buckets K V → Option V
  last_all q [] = none
  last_all q (c ∷ cs) = or_else (last_all q cs) (last q c)

  abbrev AllGood : List (Pair K V) → Type 0
  AllGood c = All (λ p. Good p.key) c

  module _ (laws : KeyLaws K hash equal Good) where
    step_view :
        (a b : Option V) (t : Bool) (v : V)
        → or_else a (if t then some v else b) ≡ or_else (or_else a (if t then some v else none)) b
    step_view a b t v = ground arith

    move_chain-done :
        (ok : ℕ → Bool) (capacity : ℕ) (c : List (Pair K V)) (n : ℕ) (bs : Buckets K V)
        {r : ℕ × Buckets K V}
        → AllGood c
        → IsPlaced hash equal Good capacity bs
        → move_chain hash equal ok capacity c n bs ≡ done r
        → IsPlaced hash equal Good capacity r.1
          × ((q : K)
              → Good q
              → view hash equal Good r.1 capacity q
                ≡ or_else (last q c) (view hash equal Good bs capacity q))
    unfolding move_chain last
    move_chain-done ok capacity [] n bs {r} g pl e =
        let same : r.1 ≡ bs = ground arith in rw same (pl, λ q gq. refl)
    move_chain-done ok capacity (p ∷ ps) n bs g pl e =
        let (bs₁, s, m) = >>=-eq-done (set_entry hash equal (ok n) bs capacity p.key p.val) _ e in
        let (pl₁, v₁) =
          set_entry-done hash equal Good laws (ok n) bs bs₁ capacity p.key p.val g.0 pl s in
        let (pl₂, v₂) = move_chain-done ok capacity ps (n + 1) bs₁ g.1 pl₁ m in
        (pl₂, λ q gq. rw (v₂ q gq, v₁ q gq) (step_view (last q ps) _ (equal q p.key) p.val))

    move_all-done :
        (ok : ℕ → Bool) (capacity : ℕ) (cs : Buckets K V) (n : ℕ) (bs : Buckets K V)
        {r : ℕ × Buckets K V}
        → All AllGood cs
        → IsPlaced hash equal Good capacity bs
        → move_all hash equal ok capacity cs n bs ≡ done r
        → IsPlaced hash equal Good capacity r.1
          × ((q : K)
              → Good q
              → view hash equal Good r.1 capacity q
                ≡ or_else (last_all q cs) (view hash equal Good bs capacity q))
    unfolding move_all last_all
    move_all-done ok capacity [] n bs {r} g pl e =
        let same : r.1 ≡ bs = ground arith in rw same (pl, λ q gq. refl)
    move_all-done ok capacity (c ∷ cs) n bs g pl e =
        let (r₁, s, m) = >>=-eq-done (move_chain hash equal ok capacity c n bs) _ e in
        let (pl₁, v₁) = move_chain-done ok capacity c n bs g.0 pl s in
        let (pl₂, v₂) = move_all-done ok capacity cs r₁.0 r₁.1 g.1 pl₁ m in
        (pl₂, λ q gq. rw (v₂ q gq, v₁ q gq) (or_else_assoc (last_all q cs) (last q c) _))

    -- Keys that belong to another bucket are not in a chain.
    last_elsewhere :
        (capacity i : ℕ) (c : List (Pair K V)) (q : K)
        → Good q
        → IsChain hash equal Good capacity i c
        → home hash q capacity ≢ i
        → last q c ≡ none
    unfolding last
    last_elsewhere capacity i [] q gq h ne = refl
    last_elsewhere capacity i (p ∷ []) q gq h ne = ground (arith, laws.hash_congr q p.key gq h.0)
    last_elsewhere capacity i (p ∷ r ∷ ps) q gq h ne = elim h [ ]

    last-find :
        (capacity i : ℕ) (c : List (Pair K V)) (q : K)
        → Good q
        → IsChain hash equal Good capacity i c
        → last q c ≡ find hash equal (hash q) (equal q) c
    unfolding last find
    last-find capacity i [] q gq h = refl
    last-find capacity i (p ∷ []) q gq h = ground (arith, laws.hash_congr q p.key gq h.0)
    last-find capacity i (p ∷ r ∷ ps) q gq h = elim h [ ]

    abbrev PlacedFrom : ℕ → ℕ → Buckets K V → Type 0
    PlacedFrom capacity o cs =
        (i j : ℕ) → j ≡ o + i → IsChain hash equal Good capacity j (get_or cs i [])

    placed_tail :
        (capacity o : ℕ) (c : List (Pair K V)) (cs : Buckets K V)
        → PlacedFrom capacity o (c ∷ cs)
        → PlacedFrom capacity (suc o) cs
    placed_tail capacity o c cs h i j e = h (suc i) j (omega arith)

    last_all_below :
        (capacity o : ℕ) (cs : Buckets K V) (q : K)
        → Good q
        → PlacedFrom capacity o cs
        → home hash q capacity < o
        → last_all q cs ≡ none
    unfolding last_all
    last_all_below capacity o [] q gq h lt = refl
    last_all_below capacity o (c ∷ cs) q gq h lt = rw (
      last_all_below capacity (suc o) cs q gq (placed_tail capacity o c cs h) (omega arith),
      last_elsewhere capacity o c q gq (h 0 o (omega arith)) (omega arith),
    )

    last_all_at :
        (capacity o m : ℕ) (cs : Buckets K V) (q : K)
        → Good q
        → PlacedFrom capacity o cs
        → home hash q capacity ≡ o + m
        → last_all q cs ≡ last q (get_or cs m [])
    unfolding last_all last
    last_all_at capacity o m [] q gq h e = refl
    last_all_at capacity o zero (c ∷ cs) q gq h e =
        rw (last_all_below capacity (suc o) cs q gq (placed_tail capacity o c cs h) (omega arith))
    last_all_at capacity o (suc m) (c ∷ cs) q gq h e =
        rw
          (
            last_all_at capacity (suc o) m cs q gq (placed_tail capacity o c cs h) (omega arith),
            last_elsewhere capacity o c q gq (h 0 o (omega arith)) (omega arith),
          )
          (or_else-none _)

    from_zero :
        (capacity : ℕ) (bs : Buckets K V)
        → IsPlaced hash equal Good capacity bs
        → PlacedFrom capacity 0 bs
    from_zero capacity bs pl i j e = rw (← zero_add i j e) (pl.chains j)

    last_all-view :
        (capacity : ℕ) (bs : Buckets K V) (q : K)
        → Good q
        → IsPlaced hash equal Good capacity bs
        → last_all q bs ≡ view hash equal Good bs capacity q
    last_all-view capacity bs q gq pl =
        let i = home hash q capacity in
        last_all_at capacity 0 i bs q gq (from_zero capacity bs pl) (omega arith)
        ∙ last-find capacity i (get_or bs i []) q gq (pl.chains i)

    -- The keys of buckets in place are good.
    good_chain :
        (capacity i : ℕ) (c : List (Pair K V)) → IsChain hash equal Good capacity i c → AllGood c
    good_chain capacity i [] h = tt
    good_chain capacity i (p ∷ []) h = (h.0, tt)
    good_chain capacity i (p ∷ r ∷ ps) h = elim h [ ]

    good-All : (capacity o : ℕ) (cs : Buckets K V) → PlacedFrom capacity o cs → All AllGood cs
    good-All capacity o [] h = tt
    good-All capacity o (c ∷ cs) h = (
      good_chain capacity o c (h 0 o (omega arith)),
      good-All capacity (suc o) cs (placed_tail capacity o c cs h),
    )

    -- What a move into an empty table of any capacity leaves.
    pub move_all-view :
        (ok : ℕ → Bool) (capacity capacity' : ℕ) (bs fresh : Buckets K V) {r : ℕ × Buckets K V}
        → IsPlaced hash equal Good capacity bs
        → IsPlaced hash equal Good capacity' fresh
        → ((q : K) → view hash equal Good fresh capacity' q ≡ none)
        → move_all hash equal ok capacity' bs 0 fresh ≡ done r
        → IsPlaced hash equal Good capacity' r.1
          × ((q : K)
              → Good q
              → view hash equal Good r.1 capacity' q ≡ view hash equal Good bs capacity q)
    move_all-view ok capacity capacity' bs fresh {r} pl pl' empty e =
        let (placed, same) =
          move_all-done ok capacity' bs 0 fresh (good-All capacity 0 bs (from_zero capacity bs pl))
            pl' e in
        (
          placed,
          λ q gq. rw (same q gq, empty q, last_all-view capacity bs q gq pl) (or_else-none _),
        )
