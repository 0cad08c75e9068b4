-- ===== src/Api/Query.antt =====
-- src/api_layer/lua54.c: the functions that look at a value of the stack, and those that convert it.
use fluffy_vm.Prelude.{
  ℕ, ◌-◌, Bool, true, false, ◌||◌, Option, none, some, ◌==◌, ltb, if◌then◌else◌, get_or, set,
}
use fluffy_vm.Prelude.Int.{ℤ, pos, negsuc}
use fluffy_vm.Prelude.Run.{Run, done, throw, crash, abort, ◌>>=◌, ◌>>◌}
use fluffy_vm.Value.{
  Value, Str, Host, not_present, nil, double, long, string, table, closure, bool, coroutine,
  full_userdata, light_userdata, garbage_collectable_userdata,
}
use fluffy_vm.Value.Error.{Err, StaticString, expected_number}
use fluffy_vm.Value.Kind.{get_unique_ptr, typename}
use fluffy_vm.Value.Hash.{get_len}
use fluffy_vm.Value.Math.{to_double}
use fluffy_vm.Value.Print.{tostring}
use fluffy_vm.Frame.{Frame, push}
use fluffy_vm.Interpreter.Ops.{kept}
use fluffy_vm.Api.{absindex, value_at, ensure_stack_fits}

-- `lua_Type`
pub data LuaType : Type 0 where
  lua_tnone lua_tnil lua_tboolean lua_tlightuserdata lua_tnumber lua_tstring lua_ttable : LuaType
  lua_tfunction lua_tuserdata lua_tthread : LuaType

unfoldable pub is_type : LuaType → LuaType → Bool
is_type lua_tnone lua_tnone = true
is_type lua_tnil lua_tnil = true
is_type lua_tboolean lua_tboolean = true
is_type lua_tlightuserdata lua_tlightuserdata = true
is_type lua_tnumber lua_tnumber = true
is_type lua_tstring lua_tstring = true
is_type lua_ttable lua_ttable = true
is_type lua_tfunction lua_tfunction = true
is_type lua_tuserdata lua_tuserdata = true
is_type lua_tthread lua_tthread = true
is_type _ _ = false

module _ {D : Type 0} where
  -- The `switch` of `lua_type`.
  unfoldable pub type_of : Value D → Run (Err D) LuaType
  type_of (string s) = done lua_tstring
  type_of (long n) = done lua_tnumber
  type_of (double x) = done lua_tnumber
  type_of (table t) = done lua_ttable
  type_of (closure c) = done lua_tfunction
  type_of (full_userdata u) = done lua_tuserdata
  type_of (bool b) = done lua_tboolean
  type_of (light_userdata u) = done lua_tlightuserdata
  type_of (garbage_collectable_userdata u) = done lua_tlightuserdata
  type_of nil = done lua_tnil
  type_of (coroutine c) = done lua_tthread
  type_of not_present = crash abort

  -- No value is at 0, above the stack pointer, or more than one place under the bottom.
  unfoldable pub is_outside : Frame D → ℤ → Bool
  is_outside f (pos n) = n == 0 || ltb f.sp n
  is_outside f (negsuc n) = ltb f.sp n

  unfoldable pub lua_type : Frame D → ℤ → Run (Err D) LuaType
  unfolding is_outside value_at type_of
  lua_type f idx = if is_outside f idx then done lua_tnone else do v ← value_at f idx; type_of v

  unfoldable pub has_type : LuaType → Frame D → ℤ → Run (Err D) Bool
  unfolding lua_type is_type
  has_type t f idx = do u ← lua_type f idx; done (is_type u t)

  -- The second test is made only where the first fails.
  unfoldable pub has_either : LuaType → LuaType → Frame D → ℤ → Run (Err D) Bool
  unfolding has_type
  has_either t u f idx = do b ← has_type t f idx; if b then done true else has_type u f idx

  unfoldable pub isboolean : Frame D → ℤ → Run (Err D) Bool
  unfolding has_type
  isboolean f idx = has_type lua_tboolean f idx

  unfoldable pub isfunction : Frame D → ℤ → Run (Err D) Bool
  unfolding has_type
  isfunction f idx = has_type lua_tfunction f idx

  unfoldable pub islightuserdata : Frame D → ℤ → Run (Err D) Bool
  unfolding has_type
  islightuserdata f idx = has_type lua_tlightuserdata f idx

  unfoldable pub isnil : Frame D → ℤ → Run (Err D) Bool
  unfolding has_type
  isnil f idx = has_type lua_tnil f idx

  unfoldable pub isnone : Frame D → ℤ → Run (Err D) Bool
  unfolding has_type
  isnone f idx = has_type lua_tnone f idx

  unfoldable pub isnoneornil : Frame D → ℤ → Run (Err D) Bool
  unfolding has_either
  isnoneornil f idx = has_either lua_tnil lua_tnone f idx

  unfoldable pub isstring : Frame D → ℤ → Run (Err D) Bool
  unfolding has_either
  isstring f idx = has_either lua_tstring lua_tnumber f idx

  unfoldable pub istable : Frame D → ℤ → Run (Err D) Bool
  unfolding has_type
  istable f idx = has_type lua_ttable f idx

  unfoldable pub isthread : Frame D → ℤ → Run (Err D) Bool
  unfolding has_type
  isthread f idx = has_type lua_tthread f idx

  unfoldable pub isuserdata : Frame D → ℤ → Run (Err D) Bool
  unfolding has_either
  isuserdata f idx = has_either lua_tuserdata lua_tlightuserdata f idx

  unfoldable pub is_long : Value D → Bool
  is_long (long n) = true
  is_long _ = false

  unfoldable pub isinteger : Frame D → ℤ → Run (Err D) Bool
  unfolding has_type value_at is_long
  isinteger f idx = do
    b ← has_type lua_tnumber f idx
    if b then (value_at f idx >>= λ v. done (is_long v)) else done false

  -- `lua_tothread`: the coroutine's number, NULL for any other value.
  thread_of : Value D → Option ℕ
  thread_of (coroutine c) = some c
  thread_of _ = none

  unfoldable pub tothread : Frame D → ℤ → Run (Err D) (Option ℕ)
  unfolding value_at thread_of
  tothread f idx = do v ← value_at f idx; done (thread_of v)

  unfoldable pub truth : Value D → Bool
  truth (bool false) = false
  truth nil = false
  truth _ = true

  unfoldable pub toboolean : Frame D → ℤ → Run (Err D) Bool
  unfolding value_at truth
  toboolean f idx = do v ← value_at f idx; done (truth v)

  userdata_of : Value D → Option ℕ
  userdata_of (full_userdata u) = some u.user_data
  userdata_of (light_userdata u) = some u.user_data
  userdata_of _ = none

  unfoldable pub touserdata : Frame D → ℤ → Run (Err D) (Option ℕ)
  unfolding value_at userdata_of
  touserdata f idx = do v ← value_at f idx; done (userdata_of v)

  unfoldable pub topointer : Frame D → ℤ → Run (Err D) (Option ℕ)
  unfolding value_at get_unique_ptr
  topointer f idx = do v ← value_at f idx; get_unique_ptr v

  -- `lua_len`: strings and tables; for any other value nothing is pushed. `usage` is that of the table
  -- with this number.
  len_pushed : (ℕ → ℕ) → Frame D → Value D → Run (Err D) (Frame D)
  unfolding get_len kept push
  len_pushed usage f (string s) = do n ← get_len usage (string s); kept f (push f (long n))
  len_pushed usage f (table t) = do n ← get_len usage (table t); kept f (push f (long n))
  len_pushed usage f _ = done f

  unfoldable pub len : (ℕ → ℕ) → Frame D → ℤ → Run (Err D) (Frame D)
  unfolding ensure_stack_fits value_at len_pushed
  len usage f idx = do ensure_stack_fits f 1; v ← value_at f idx; len_pushed usage f v

module _ {D : Type 0} (host : Host D) where
  -- `value_todouble`, whose failure is a value that is not present. The message that it leaves is not
  -- part of the result.
  unfoldable pub number_or_none : Run (Err D) (Value D) → Run (Err D) (Option D)
  number_or_none (done (double x)) = done (some x)
  number_or_none (done v) = crash abort
  number_or_none (throw e) = done none
  number_or_none (crash x) = crash x

  -- `lua_tonumberx`: the number, and none where it returns 0 and clears `isnum`.
  unfoldable pub tonumberx : Frame D → ℤ → Run (Err D) (Option D)
  unfolding value_at to_double number_or_none
  tonumberx f idx = do v ← value_at f idx; number_or_none (to_double host v)

  converted : Option D → Option ℤ
  converted none = none
  converted (some x) = some (host.to_long x)

  -- `lua_tointegerx`: every number goes through a double.
  unfoldable pub tointegerx : Frame D → ℤ → Run (Err D) (Option ℤ)
  unfolding tonumberx converted
  tointegerx f idx = do x ← tonumberx f idx; done (converted x)

  is_some : Option D → Bool
  is_some none = false
  is_some (some x) = true

  number_test : Frame D → ℤ → LuaType → Run (Err D) Bool
  unfolding tonumberx is_some
  number_test f idx lua_tnumber = done true
  number_test f idx lua_tstring = do x ← tonumberx f idx; done (is_some x)
  number_test f idx _ = done false

  unfoldable pub isnumber : Frame D → ℤ → Run (Err D) Bool
  unfolding lua_type number_test
  isnumber f idx = do t ← lua_type f idx; number_test f idx t

  -- The string that `lua_tolstring` puts in the place of a number.
  put_string : Frame D → ℕ → Value D → Frame D × Value D
  put_string f location v = (record f { general_stack = set f.general_stack location v }, v)

  stringified :
      (StaticString → Str) → Option ℕ → Frame D → ℕ → Value D → Run (Err D) (Frame D × Value D)
  unfolding tostring put_string typename
  stringified text memory f location (string s) = done (f, string s)
  stringified text memory f location (long n) = do
    v ← tostring host text memory (long n)
    done (put_string f location v)
  stringified text memory f location (double x) = do
    v ← tostring host text memory (double x)
    done (put_string f location v)
  stringified text memory f location v = do name ← typename v; throw (expected_number name)

  -- `lua_tolstring`, with the call state and the string value whose bytes and length it returns.
  unfoldable pub tolstring :
      (StaticString → Str) → Option ℕ → Frame D → ℤ → Run (Err D) (Frame D × Value D)
  unfolding absindex stringified
  tolstring text memory f idx = do
    index ← absindex f idx
    stringified text memory f (index - 1) (get_or f.general_stack (index - 1) not_present)
