-- ===== src/Hashtable/Keys/Laws.antt =====
-- `value_equals` and `value_hash_code` meet what the table asks of its keys, and what follows for the
-- table of Lua values.
use fluffy_vm.Prelude.{
  ℕ, ◌+◌, ◌≡◌, ◌↔◌, refl, sym, ◌∙◌, arith, Bool, true, false, List, [], ◌∷◌, none, some,
  if◌then◌else◌, get_or, ap,
}
use fluffy_vm.Prelude.Run.{done, crash, null_dereference}
use fluffy_vm.Value.{
  Value, Host, not_present, nil, double, long, string, table, closure, bool, coroutine,
  full_userdata, light_userdata, garbage_collectable_userdata,
}
use fluffy_vm.Value.Hash.{hash_of}
use fluffy_vm.Value.Kind.{IsPresent}
use fluffy_vm.Value.Equal.{payload_equal, bool_equal}
use fluffy_vm.Value.Equal.Laws.{IsKey, string_equal_iff, hash_of_congr}
use fluffy_vm.Hashtable.{Alloc, home, Pair, get, remove, set_key}
use fluffy_vm.Hashtable.Valid.{KeyLaws, IsValid}
use fluffy_vm.Hashtable.Keys.{LuaTable, is_full, hashtable_set, hashtable_get, hashtable_remove}
use fluffy_vm.Hashtable.Laws
use fluffy_vm.Hashtable.Removal

-- What equality of keys reads of a value.
data Form : Type 0 where
  text : List ℕ → Form
  word : ℕ → ℕ → Form

abbrev bit : Bool → ℕ
bit true = 1
bit false = 0

module _ {D : Type 0} where
  form : Value D → Form
  form (string s) = text s.bytes
  form (long n) = word 1 n
  form (table t) = word 2 t
  form (closure c) = word 3 c
  form (bool b) = word 4 (bit b)
  form (coroutine c) = word 5 c
  form (full_userdata u) = word 6 u.user_data
  form (light_userdata u) = word 7 u.user_data
  form nil = word 8 0
  form (double d) = word 9 0
  form (garbage_collectable_userdata u) = word 10 0
  form not_present = word 11 0

module _ {D : Type 0} (host : Host D) where
  payload_equal_iff :
      (a b : Value D)
      → IsKey host a
      → IsKey host b
      → (payload_equal host a b ≡ true) ↔ (form a ≡ form b)
  unfolding payload_equal form bool_equal
  payload_equal_iff (string s) (string t) ka kb =
      let (there, back) = string_equal_iff host s t ka.2 kb.2 in
      (λ h. ap text (there h), λ e. back (cc e))
  payload_equal_iff (double d) b ka kb = elim ka.1 [ ]
  payload_equal_iff (garbage_collectable_userdata u) b ka kb = elim ka.1 [ ]
  payload_equal_iff a b ka kb = ground arith

  -- `value_equals` is an equivalence on keys, and equal keys hash alike.
  pub value_KeyLaws : KeyLaws (Value D) (hash_of host) (payload_equal host) (IsKey host)
  value_KeyLaws = record {
    equal_refl = λ a ka. (payload_equal_iff a a ka ka).1 refl;
    equal_symm = λ a b ka kb.
        same_bool (payload_equal host a b) (payload_equal host b a)
          (λ h. (payload_equal_iff b a kb ka).1 (sym ((payload_equal_iff a b ka kb).0 h)))
          (λ h. (payload_equal_iff a b ka kb).1 (sym ((payload_equal_iff b a kb ka).0 h)));
    equal_trans = λ a b c ka kb kc p q.
        (payload_equal_iff a c ka kc).1
          ((payload_equal_iff a b ka kb).0 p ∙ (payload_equal_iff b c kb kc).0 q);
    hash_congr = λ a b ka kb h. hash_of_congr host a b ka.1 h;
  }
    where
      same_bool : (x y : Bool) → (x ≡ true → y ≡ true) → (y ≡ true → x ≡ true) → x ≡ y
      same_bool true y f g = sym (f refl)
      same_bool false true f g = g refl
      same_bool false false f g = refl

  abbrev pub IsValidTable : LuaTable host → Type 0
  IsValidTable t = IsValid (hash_of host) (payload_equal host) (IsKey host) t

  pub get_present :
      (t : LuaTable host) (q : Value D)
      → IsPresent q
      → hashtable_get host t q ≡ get (hash_of host) (payload_equal host) t q
  unfolding hashtable_get
  get_present t not_present p = elim p [ ]
  get_present t _ p = refl

  remove_present :
      (t : LuaTable host) (q : Value D)
      → IsPresent q
      → hashtable_remove host t q ≡ remove (hash_of host) (payload_equal host) t q
  unfolding hashtable_remove
  remove_present t not_present p = elim p [ ]
  remove_present t _ p = refl

  set_present :
      (load_factor : D) (alloc : Alloc) (t : LuaTable host) (key v : Value D)
      → IsPresent key
      → IsPresent v
      → hashtable_set host load_factor alloc t key v
        ≡ set_key (hash_of host) (payload_equal host) (is_full host load_factor) alloc t key v
  unfolding hashtable_set
  set_present load_factor alloc t not_present v p q = elim p [ ]
  set_present load_factor alloc t nil not_present p q = elim q [ ]
  set_present load_factor alloc t _ not_present p q = elim q [ ]
  set_present load_factor alloc t _ _ p q = refl

  -- For keys other than doubles and garbage collectable userdata, whose cached hashes are coherent, a
  -- successful `hashtable_set` with memory for the pair keeps the table valid, also when it resizes,
  -- and adds one to `usage`, also when it overwrites. `hashtable_get` then returns the new value at
  -- every key that `value_equals` takes for `key`, and what it returned before at every other.
  pub hashtable_get-set :
      (load_factor : D) (alloc : Alloc) (t t' : LuaTable host) (key v : Value D)
      → IsValidTable t
      → IsKey host key
      → IsPresent v
      → alloc.pair_ok ≡ true
      → hashtable_set host load_factor alloc t key v ≡ done t'
      → IsValidTable t'
        × (t'.usage ≡ t.usage + 1)
        × ((q : Value D)
            → IsKey host q
            → hashtable_get host t' q
              ≡ (if payload_equal host q key then done (some v) else hashtable_get host t q))
  hashtable_get-set load_factor alloc t t' key v valid k p ok e =
      let (valid', used, reads) =
        Laws.get-set (hash_of host) (payload_equal host) (IsKey host) value_KeyLaws
          (is_full host load_factor) alloc t t' key v valid k ok
          (sym (set_present load_factor alloc t key v k.0 p) ∙ e) in
      (valid', used, λ q kq. rw (get_present t' q kq.0, get_present t q kq.0) (reads q kq))

  -- `hashtable_remove` of such a key from a valid table returns, keeps the table valid, and removes
  -- exactly what `value_equals` takes for the key; `usage` does not change.
  pub hashtable_get-remove :
      (t : LuaTable host) (key : Value D)
      → IsValidTable t
      → IsKey host key
      → (t' : LuaTable host) × (hashtable_remove host t key ≡ done t')
        × IsValidTable t'
        × (t'.usage ≡ t.usage)
        × ((q : Value D)
            → IsKey host q
            → hashtable_get host t' q
              ≡ (if payload_equal host q key then done none else hashtable_get host t q))
  hashtable_get-remove t key valid k =
      let (t', removed, valid', used, cap, reads) =
        Removal.get-remove (hash_of host) (payload_equal host) (IsKey host) value_KeyLaws t key
          valid k in
      (
        t',
        remove_present t key k.0 ∙ removed,
        valid',
        used,
        λ q kq. rw (get_present t' q kq.0, get_present t q kq.0) (reads q kq),
      )

  -- Two keys that are not equal and fall into one bucket: `hashtable_set` of the second, with room in
  -- the table and memory for its pair, crashes on a null dereference in `pair_write_next`.
  pub hashtable_set_collision :
      (load_factor : D) (alloc : Alloc) (t : LuaTable host) (key v : Value D)
      (p : Pair (Value D) (Value D))
      → IsValidTable t
      → IsPresent key
      → IsPresent v
      → alloc.pair_ok ≡ true
      → is_full host load_factor t.usage t.capacity ≡ false
      → get_or t.buckets (home (hash_of host) key t.capacity) [] ≡ p ∷ []
      → payload_equal host p.key key ≡ false
      → hashtable_set host load_factor alloc t key v ≡ crash null_dereference
  hashtable_set_collision load_factor alloc t key v p valid k q ok room here ne =
      set_present load_factor alloc t key v k q
      ∙ Laws.set_collision (hash_of host) (payload_equal host) (IsKey host) value_KeyLaws
          (is_full host load_factor) alloc t key v p valid ok room here ne
