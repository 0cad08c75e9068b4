-- ===== src/Hashtable/Keys/Next.antt =====
-- `hashtable_next` of src/hashtable.c on the keys of a table of Lua values.
use fluffy_vm.Prelude.{
  ℕ, ◌≤◌, ◌≡◌, refl, sym, ◌∙◌, true, List, [], ◌∷◌, Option, none, some, All, length,
}
use fluffy_vm.Prelude.Run.{done}
use fluffy_vm.Value.{Value, Host, not_present}
use fluffy_vm.Value.Hash.{hash_of}
use fluffy_vm.Value.Equal.{payload_equal}
use fluffy_vm.Value.Equal.Laws.{IsKey}
use fluffy_vm.Hashtable.{next_key, get}
use fluffy_vm.Hashtable.Next.{
  visit, keys_of, meets, Once, visit-next_key, keys_of-Once, get-keys_of,
}
use fluffy_vm.Hashtable.Keys.{LuaTable, hashtable_next, hashtable_get}
use fluffy_vm.Hashtable.Keys.Laws.{value_KeyLaws, IsValidTable, get_present}

module _ {D : Type 0} (host : Host D) where
  -- The key that a caller passes: none is `value_not_present`.
  unfoldable pub next_of : LuaTable host → Option (Value D) → Option (Value D)
  unfolding hashtable_next
  next_of t none = hashtable_next host t not_present
  next_of t (some k) = hashtable_next host t k

  next-next_key :
      (t : LuaTable host) (k : Value D)
      → IsKey host k
      → next_of t (some k) ≡ next_key (hash_of host) (payload_equal host) t (some k)
  unfolding next_of hashtable_next
  next-next_key t not_present h = absurd h.0
  next-next_key t k h = refl

  first-next_key :
      (t : LuaTable host) → next_of t none ≡ next_key (hash_of host) (payload_equal host) t none
  unfolding next_of hashtable_next
  first-next_key t = refl

  found-All :
      (t : LuaTable host) (ks : List (Value D))
      → All
          (λ k.
            IsKey host k
            × ((v : Value D) × (get (hash_of host) (payload_equal host) t k ≡ done (some v))))
          ks
      → All (λ k. (v : Value D) × (hashtable_get host t k ≡ done (some v))) ks
  found-All t [] h = tt
  found-All t (k ∷ ks) ((key, (v, found)), others) =
      ((v, get_present host t k key.0 ∙ found), found-All t ks others)

  -- On a valid table, a caller that starts with `value_not_present` and asks `hashtable_next` for one key after the
  -- other comes to an end after as many keys as there are: it meets the keys bucket by bucket, no two of
  -- them equal; `hashtable_get` finds each of them, and it finds no key that is not equal to one of
  -- them.
  pub hashtable_next_lem :
      (t : LuaTable host) (fuel : ℕ)
      → IsValidTable host t
      → length (keys_of t.buckets) ≤ fuel
      → (visit (next_of t) fuel (next_of t none) ≡ keys_of t.buckets)
        × Once (payload_equal host) (keys_of t.buckets)
        × All (λ k. (v : Value D) × (hashtable_get host t k ≡ done (some v))) (keys_of t.buckets)
        × ((q v : Value D)
            → IsKey host q
            → hashtable_get host t q ≡ done (some v)
            → meets (payload_equal host) q (keys_of t.buckets) ≡ true)
  hashtable_next_lem t fuel valid le =
      let laws = value_KeyLaws host in
      let (met, found) =
        visit-next_key (hash_of host) (payload_equal host) (IsKey host) laws t (next_of t) fuel
          (first-next_key t) (next-next_key t) valid le in
      (
        met,
        keys_of-Once (hash_of host) (payload_equal host) (IsKey host) laws t 0 t.buckets valid refl,
        found-All t (keys_of t.buckets) found,
        λ q v key h.
            get-keys_of (hash_of host) (payload_equal host) (IsKey host) laws t q v valid
              (sym (get_present host t q key.0) ∙ h),
      )
