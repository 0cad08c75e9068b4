-- ===== src/Value/New.antt =====
-- src/value.c: the constructors of strings and userdata, and src/string_cache.c: `string_cache_create_string`. What
-- `malloc` and the collector answer is a parameter.
pub mod Laws
use fluffy_vm.Prelude.{
  ℕ, suc, ◌+◌, ◌≢◌, ◌≡◌, refl, ap, arith, Bool, true, false, List, [], ◌∷◌, ◌++◌, Option, none,
  some, ◌==◌, ◌≤◌, leb, ltb, if◌then◌else◌, length, take, All, length-append, take-append,
}
use fluffy_vm.Prelude.Run.{Run, done, throw, crash, null_dereference, out_of_bounds, ◌>>=◌, ◌>>◌}
use fluffy_vm.Value.{
  Value, Str, Userdata, not_present, long, string, closure, bool, full_userdata, light_userdata,
  garbage_collectable_userdata,
}
use fluffy_vm.Value.Error.{Err, static, unset, out_of_memory}
use fluffy_vm.Value.Hash.{get_len}

-- The address that `malloc` returns, with what a field that nobody writes holds; the object that the
-- collector returns; `foxgc_api_object_get_data`, which two constructors call before they look for NULL; and
-- whether `vm->staticStrings.outOfMemoryRootRef` is set.
pub record Allocations (D : Type 0) : Type 0 where
  pub malloc : Option ℕ
  pub unwritten : ℕ
  pub object : Option ℕ
  pub object_data : Option ℕ → Run (Err D) ℕ
  pub statics_ready : Bool

-- The words in memory, by address.
abbrev pub Cells : Type 0
Cells = ℕ → ℕ

abbrev pub write_cell : ℕ → ℕ → Cells → Cells
write_cell a w cells b = if b == a then w else cells b

module _ {D : Type 0} where
  -- Before the static strings are made there is no message to set.
  unfoldable pub no_memory : Allocations D → Err D
  no_memory m = if m.statics_ready then static out_of_memory else unset

  -- `memcpy` of `len` bytes of an array.
  unfoldable pub copy_bytes : List ℕ → ℕ → Run (Err D) (List ℕ)
  copy_bytes bytes len =
      if leb len (length bytes) then done (take len bytes) else crash out_of_bounds

  string_at : Allocations D → List ℕ → ℕ → Option ℕ → Option ℕ → Run (Err D) (Value D)
  unfolding no_memory copy_bytes
  string_at m bytes len none object = throw (no_memory m)
  string_at m bytes len (some p) none = throw (no_memory m)
  string_at m bytes len (some p) (some o) = do
    copy ← copy_bytes bytes len
    done (string (record { address = p; bytes = copy; hash_code = 0 }))

  -- `value_string_allocator` of an array of characters.
  unfoldable pub string_allocator : Allocations D → List ℕ → ℕ → Run (Err D) (Value D)
  unfolding string_at
  string_allocator m bytes len = string_at m bytes len m.malloc m.object

  unfoldable pub new_string2 : Allocations D → List ℕ → ℕ → Run (Err D) (Value D)
  unfolding string_allocator
  new_string2 m bytes len = string_allocator m bytes len

  -- `strlen`: the array has a terminator.
  unfoldable pub strlen : List ℕ → Run (Err D) ℕ
  strlen [] = crash out_of_bounds
  strlen (b ∷ bs) = let rest = strlen bs in if b == 0 then done 0 else do n ← rest; done (suc n)

  unfoldable pub new_cstring : Allocations D → List ℕ → Run (Err D) (Value D)
  unfolding new_string2 strlen
  new_cstring m bytes = do len ← strlen bytes; new_string2 m bytes len

  -- The cache asks its allocator for a new string each time.
  unfoldable pub string_cache_create_string :
      (List ℕ → ℕ → Run (Err D) (Value D)) → List ℕ → ℕ → Run (Err D) (Value D)
  string_cache_create_string allocator bytes len = allocator bytes len

  -- `vm->stringCache` is there or not; its allocator is the one that `caches_init` gave it.
  unfoldable pub new_string2_constant : Allocations D → Bool → List ℕ → ℕ → Run (Err D) (Value D)
  unfolding string_allocator string_cache_create_string
  new_string2_constant m cached bytes len =
      if cached
      then string_cache_create_string (string_allocator m) bytes len
      else string_allocator m bytes len

  unfoldable pub new_string_constant : Allocations D → Bool → List ℕ → Run (Err D) (Value D)
  unfolding new_string2_constant strlen
  new_string_constant m cached bytes = do
    len ← strlen bytes
    new_string2_constant m cached bytes len

  full_at : Allocations D → ℕ → ℕ → Option ℕ → Run (Err D) (Userdata)
  unfolding no_memory
  full_at m module_id type_id none = throw (no_memory m)
  full_at m module_id type_id (some p) = do
    address ← m.object_data m.object
    elim m.object [
      | none ↦ throw (no_memory m)
      | some o ↦ done (record {
        data_obj = o;
        user_data = address;
        user_object = m.unwritten;
        is_full = true;
        module_id = module_id;
        type_id = type_id;
      })
    ]

  -- `value_new_full_userdata`
  unfoldable pub new_full_userdata : Allocations D → ℕ → ℕ → Run (Err D) Userdata
  unfolding full_at
  new_full_userdata m module_id type_id = full_at m module_id type_id m.malloc

  -- A failure is a value that is not present, whose payload is NULL.
  lightened : ℕ → Cells → Run (Err D) Userdata → Run (Err D) (Value D × Cells)
  lightened ptr cells (done u) =
      done (light_userdata (record u { is_full = false }), write_cell u.user_data ptr cells)
  lightened ptr cells (throw e) = crash null_dereference
  lightened ptr cells (crash x) = crash x

  -- `value_new_light_userdata`: the pointer goes to the memory that the collector gave, at `data`.
  unfoldable pub new_light_userdata :
      Allocations D → ℕ → ℕ → ℕ → Cells → Run (Err D) (Value D × Cells)
  unfolding new_full_userdata lightened
  new_light_userdata m module_id type_id ptr cells =
      lightened ptr cells (new_full_userdata m module_id type_id)

  -- `value_new_garbage_collectable_userdata`; neither allocation is looked at before it is written to.
  -- `foxgc_api_write_array` asks for an array.
  unfoldable pub new_garbage_collectable_userdata :
      Allocations D → ℕ → ℕ → ℕ → Run (Err D) (Value D)
  new_garbage_collectable_userdata m module_id type_id object = elim m.object [
    | none ↦ crash null_dereference
    | some o ↦ elim m.malloc [
      | none ↦ crash null_dereference
      | some p ↦ done (
          garbage_collectable_userdata (record {
            data_obj = o;
            user_data = m.unwritten;
            user_object = object;
            is_full = false;
            module_id = module_id;
            type_id = type_id;
          }))
    ]
  ]

  unfoldable pub new_long : ℕ → Value D
  new_long n = long n

  unfoldable pub new_bool : Bool → Value D
  new_bool b = bool b

  unfoldable pub new_closure : ℕ → Value D
  new_closure c = closure c

-- `value_get_module_id`: the atomic counter before, and after.
unfoldable pub get_module_id : ℕ → ℕ × ℕ
get_module_id counter = (counter, counter + 1)
