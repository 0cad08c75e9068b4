-- ===== src/Hashtable/Keys.antt =====
-- The hash table of src/hashtable.c with Lua values for keys: the functions as the other parts of the
-- program call them.
pub mod Laws
pub mod Next
use fluffy_vm.Prelude.{
  ℕ, ◌+◌, ◌-◌, ◌≡◌, ◌↔◌, refl, sym, ◌∙◌, arith, Bool, true, false, not, List, [], ◌∷◌, ◌++◌, Option,
  none, some, bit_and, if◌then◌else◌, leb, length, take,
}
use fluffy_vm.Prelude.Int.{pos}
use fluffy_vm.Prelude.Run.{Run, done, throw, crash, abort}
use fluffy_vm.Value.{
  Value, Str, Host, not_present, nil, double, long, string, table, closure, bool, coroutine,
  full_userdata, light_userdata, garbage_collectable_userdata,
}
use fluffy_vm.Value.Error.{invalid_capacity}
use fluffy_vm.Value.Hash.{hash_bytes, hash_of}
use fluffy_vm.Value.Equal.{payload_equal, bytes_equal}
use fluffy_vm.Hashtable.{
  Table, Alloc, Failure, silent, new, set_key, internal_get, get, remove, next_key,
}

module _ {D : Type 0} (host : Host D) where
  abbrev pub LuaTable : Type 0
  LuaTable = Table (Value D) (Value D)

  -- `usage + 1 >= (capacity * loadFactor) / 100`, in double arithmetic
  unfoldable pub is_full : D → ℕ → ℕ → Bool
  is_full load_factor usage capacity =
      host.le
        (host.div (host.mul (host.of_long (pos capacity)) load_factor) (host.of_long (pos 100)))
        (host.of_long (pos (usage + 1)))

  unfoldable pub hashtable_set : D → Alloc → LuaTable → Value D → Value D → Run Failure LuaTable
  unfolding set_key is_full
  hashtable_set load_factor alloc t not_present v = throw silent
  hashtable_set load_factor alloc t key not_present = throw silent
  hashtable_set load_factor alloc t key v =
      set_key (hash_of host) (payload_equal host) (is_full load_factor) alloc t key v

  -- `value_hash_code` aborts on a key that is not present; no value is FLUFFYVM_TVALUE_NOT_PRESENT.
  unfoldable pub hashtable_get : LuaTable → Value D → Run Failure (Option (Value D))
  unfolding get
  hashtable_get t not_present = crash abort
  hashtable_get t key = get (hash_of host) (payload_equal host) t key

  unfoldable pub hashtable_remove : LuaTable → Value D → Run Failure LuaTable
  unfolding remove
  hashtable_remove t not_present = crash abort
  hashtable_remove t key = remove (hash_of host) (payload_equal host) t key

  -- The test of `hashtable_get2`: the value of `memcmp` over the shorter of the key and the string
  -- with its terminator, as a truth value.
  unfoldable pub cstring_test : List ℕ → Value D → Bool
  unfolding bytes_equal
  cstring_test key (string s) =
      let n = if leb (length key) (length s.bytes + 1) then length key else length s.bytes + 1 in
      not (bytes_equal (take n key) (take n (s.bytes ++ 0 ∷ [])))
  cstring_test key v = false

  unfoldable pub hashtable_get2 : LuaTable → List ℕ → Run Failure (Option (Value D))
  unfolding internal_get cstring_test
  hashtable_get2 t key =
      internal_get (hash_of host) (payload_equal host) t (hash_bytes host key) (cstring_test key)

  unfoldable pub hashtable_next : LuaTable → Value D → Option (Value D)
  unfolding next_key
  hashtable_next t not_present = next_key (hash_of host) (payload_equal host) t none
  hashtable_next t key = next_key (hash_of host) (payload_equal host) t (some key)
