-- ===== src/Value/Kind.antt =====
-- src/value.c: `checkPresent`, the type names, and the tests on a value's type.
use fluffy_vm.Prelude.{ℕ, Bool, true, false, Option, none, some}
use fluffy_vm.Prelude.Run.{Run, done, crash, abort}
use fluffy_vm.Value.{
  Value, not_present, nil, double, long, string, table, closure, bool, coroutine, full_userdata,
  light_userdata, garbage_collectable_userdata,
}
use fluffy_vm.Value.Error.{
  StaticString, Err, typenames_nil, typenames_string, typenames_double_num, typenames_long_num,
  typenames_table, typenames_closure, typenames_light_userdata, typenames_full_userdata,
  typenames_garbage_collectable_userdata, typenames_bool, typenames_coroutine,
}

module _ {D : Type 0} where
  unfoldable pub check_present : Value D → Run (Err D) (Unit {0})
  check_present not_present = crash abort
  check_present _ = done tt

  unfoldable pub typename : Value D → Run (Err D) StaticString
  typename (string s) = done typenames_string
  typename (long n) = done typenames_long_num
  typename (double d) = done typenames_double_num
  typename nil = done typenames_nil
  typename (table t) = done typenames_table
  typename (closure c) = done typenames_closure
  typename (light_userdata u) = done typenames_light_userdata
  typename (full_userdata u) = done typenames_full_userdata
  typename (garbage_collectable_userdata u) = done typenames_garbage_collectable_userdata
  typename (bool b) = done typenames_bool
  typename (coroutine c) = done typenames_coroutine
  typename not_present = crash abort

  unfoldable pub table_is_indexable : Value D → Run (Err D) Bool
  table_is_indexable (table t) = done true
  table_is_indexable not_present = crash abort
  table_is_indexable _ = done false

  unfoldable pub is_callable : Value D → Run (Err D) Bool
  is_callable (closure c) = done true
  is_callable not_present = crash abort
  is_callable _ = done false

  unfoldable pub is_numeric : Value D → Run (Err D) Bool
  is_numeric (double d) = done true
  is_numeric (long n) = done true
  is_numeric not_present = crash abort
  is_numeric _ = done false

  -- The address of the object that the collector must keep for the value, NULL when there is none.
  -- A closure, a coroutine and a table are the numbers of their objects.
  unfoldable pub get_object_ptr : Value D → Run (Err D) (Option ℕ)
  get_object_ptr (string s) = done (some s.address)
  get_object_ptr (table t) = done (some t)
  get_object_ptr (closure c) = done (some c)
  get_object_ptr (full_userdata u) = done (some u.data_obj)
  get_object_ptr (light_userdata u) = done (some u.data_obj)
  get_object_ptr (garbage_collectable_userdata u) = done (some u.data_obj)
  get_object_ptr (coroutine c) = done (some c)
  get_object_ptr (long n) = done none
  get_object_ptr (double d) = done none
  get_object_ptr (bool b) = done none
  get_object_ptr nil = done none
  get_object_ptr not_present = crash abort

  unfoldable pub get_unique_ptr : Value D → Run (Err D) (Option ℕ)
  get_unique_ptr (string s) = done (some s.address)
  get_unique_ptr (table t) = done (some t)
  get_unique_ptr (closure c) = done (some c)
  get_unique_ptr (full_userdata u) = done (some u.user_data)
  get_unique_ptr (light_userdata u) = done (some u.user_data)
  get_unique_ptr (garbage_collectable_userdata u) = done (some u.user_object)
  get_unique_ptr (coroutine c) = done (some c)
  get_unique_ptr (long n) = done none
  get_unique_ptr (bool b) = done none
  get_unique_ptr (double d) = done none
  get_unique_ptr nil = done none
  get_unique_ptr not_present = crash abort

  -- A value is present: the tag is not FLUFFYVM_TVALUE_NOT_PRESENT.
  abbrev pub IsPresent : Value D → Type 0
  IsPresent not_present = ⊥
  IsPresent _ = Unit
