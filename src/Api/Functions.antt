-- ===== src/Api/Functions.antt =====
-- src/api_layer/lua54.c: C functions as values, the names of the types, and the coroutines that the interface makes and
-- resumes.
pub mod Laws
pub mod Resume
use fluffy_vm.Prelude.{
  ℕ, ◌-◌, Bool, true, false, not, ◌&&◌, List, Option, none, some, ◌==◌, leb, ltb, if◌then◌else◌,
  get_elem?, length,
}
use fluffy_vm.Prelude.Int.{ℤ, pos, negsuc, ◌+ℤ◌, of_signed}
use fluffy_vm.Prelude.Run.{
  Run, done, throw, crash, abort, assert_failed, out_of_bounds, null_dereference, ◌>>=◌, ◌>>◌,
}
use fluffy_vm.Value.{Value, Str, Host, not_present, closure}
use fluffy_vm.Value.Error.{Err, static, stack_overflow}
use fluffy_vm.Value.New.{Allocations, Cells, write_cell}
use fluffy_vm.Frame.{Frame, push}
use fluffy_vm.Coroutine.{Co, can_yield}
use fluffy_vm.Coroutine.New.{World, Request, create, new_coroutine_value}
use fluffy_vm.Interpreter.Ops.{kept}
use fluffy_vm.Interpreter.Machine.{Closure, Vm, Stop, Outside, lift}
use fluffy_vm.Interpreter.Closures.{closure_from_cfunction, add_closure}
use fluffy_vm.Interpreter.Native.{closure_of}
use fluffy_vm.Api.{gettop, value_at, checkstack, ensure_stack_fits, drop_values}
use fluffy_vm.Api.Push.{pushlightuserdata, pushinteger, pushliteral}
use fluffy_vm.Api.Calls.{lua_call, lua_error}
use fluffy_vm.Api.Query.{
  LuaType, lua_tnone, lua_tnil, lua_tboolean, lua_tlightuserdata, lua_tnumber, lua_tstring,
  lua_ttable, lua_tfunction, lua_tuserdata, lua_tthread, has_type, isfunction, topointer, tonumberx,
}

-- The literals of `lua_typename`.
pub data TypeName : Type 0 where
  name_boolean name_nil name_number name_userdata name_table name_function name_string : TypeName
  name_thread : TypeName

unfoldable pub lua_typename : {D : Type 0} → LuaType → Run (Err D) TypeName
lua_typename lua_tboolean = done name_boolean
lua_typename lua_tnil = done name_nil
lua_typename lua_tnumber = done name_number
lua_typename lua_tlightuserdata = done name_userdata
lua_typename lua_tuserdata = done name_userdata
lua_typename lua_ttable = done name_table
lua_typename lua_tfunction = done name_function
lua_typename lua_tstring = done name_string
lua_typename lua_tthread = done name_thread
lua_typename lua_tnone = crash abort

abbrev pub lua_version : ℕ
lua_version = 504

-- `lua_isyieldable`
unfoldable pub isyieldable : Co → Bool
unfolding can_yield
isyieldable c = can_yield c

-- The results of `lua_resume`.
pub data LuaStatus : Type 0 where
  lua_ok lua_errrun : LuaStatus

-- `lua_resume` once control has come back. What `coroutine_resume` returned is not looked at.
unfoldable pub resume_status : Co → LuaStatus
resume_status c = if c.has_error then lua_errrun else lua_ok

-- `if (nresults) *nresults = lua_gettop(L);`
unfoldable pub report : Option ℕ → ℕ → Cells → Cells
report none top cells = cells
report (some p) top cells = write_cell p top cells

module _ {D : Type 0} where
  -- No metamethod is ever called.
  unfoldable pub trigger_metamethod : Value D → List (Value D) → Bool
  trigger_metamethod v args = false

  -- The closure that a value points to.
  unfoldable pub closure_object : Vm D → ℕ → Run (Err D) (Closure D)
  closure_object vm c = elim (get_elem? vm.closures c) [
    | none ↦ crash out_of_bounds
    | some o ↦ done o
  ]

  abbrev pub closure_is_native : Closure D → Bool
  closure_is_native c = elim c.prototype [ none ↦ true | some p ↦ false ]

  abbrev pub is_noted : Closure D → Bool
  is_noted c = elim c.lua_c_function [ none ↦ false | some f ↦ true ]

  -- `lua_iscfunction`
  unfoldable pub iscfunction : Vm D → Frame D → ℤ → Run (Err D) Bool
  unfolding has_type value_at closure_of closure_object
  iscfunction vm f idx = do
    b ← has_type lua_tfunction f idx
    if not b then done false else do
      v ← value_at f idx
      c ← closure_of v
      o ← closure_object vm c
      done (closure_is_native o && is_noted o)

  unfoldable pub c_function_of : Vm D → Value D → Run (Err D) (Option ℕ)
  unfolding closure_object
  c_function_of vm (closure c) = do
    o ← closure_object vm c
    done (if closure_is_native o then o.lua_c_function else none)
  c_function_of vm _ = done none

  -- `lua_tocfunction`: the function's number, or NULL.
  unfoldable pub tocfunction : Vm D → Frame D → ℤ → Run (Err D) (Option ℕ)
  unfolding value_at c_function_of
  tocfunction vm f idx = do v ← value_at f idx; c_function_of vm v

  -- `fluffyvm_compat_layer_lua54_init`: `trampoline` has the number given. The closure for the new coroutines, and the
  -- module number. `malloc_ok` is for the static data.
  unfoldable pub compat_layer_init : Bool → Outside D → Vm D → ℕ → ℕ → Option (Vm D × ℕ × ℕ)
  unfolding closure_from_cfunction
  compat_layer_init malloc_ok outside vm trampoline module_id =
      if malloc_ok
      then elim (closure_from_cfunction outside vm trampoline not_present) [
        | done c ↦ some (add_closure vm c, length vm.closures, module_id)
        | throw e ↦ none
        | crash x ↦ none
      ]
      else none

  -- `lua_resume` before the coroutine runs: `f` is the call state of the caller, `g` that of the coroutine.
  unfoldable pub stage :
      Allocations D → Cells → ℕ → Frame D → Frame D → ℤ → ℕ → Run (Err D) (Frame D × Cells)
  unfolding checkstack pushlightuserdata pushinteger
  stage m cells module_id f g nargs nresults = do
    fits ← checkstack f (pos 8 +ℤ nargs)
    if not fits then throw (static stack_overflow) else do
      (g', cells') ← pushlightuserdata m cells module_id g nresults
      g'' ← pushinteger g' (of_signed nargs)
      done (g'', cells')

  thread_pushed : Frame D → World × Run (Err D) ℕ → World × Run (Err D) (Frame D)
  unfolding new_coroutine_value kept push
  thread_pushed f (w, made) = (w, do v ← new_coroutine_value made; kept f (push f v))

  room_checked :
      Request → World → ℕ → Frame D → Run (Err D) (Unit {0}) → World × Run (Err D) (Frame D)
  unfolding create thread_pushed
  room_checked q w c f (done u) = thread_pushed f (create q w c)
  room_checked q w c f (throw e) = (w, throw e)
  room_checked q w c f (crash x) = (w, crash x)

  -- `lua_newthread`, for a new coroutine with the number `c`.
  unfoldable pub newthread : Request → World → ℕ → Frame D → World × Run (Err D) (Frame D)
  unfolding ensure_stack_fits room_checked
  newthread q w c f = room_checked q w c f (ensure_stack_fits f 1)

module _ {D : Type 0} (host : Host D) where
  abbrev pub number_or_zero : Option D → ℤ
  number_or_zero none = pos 0
  number_or_zero (some x) = host.to_long x

  -- `trampoline`, which a new coroutine runs: it returns no values of its own. `text` is the message's string.
  unfoldable pub trampoline :
      Outside D
      → (Vm D → Frame D → Run (Stop D) (Vm D × Frame D × ℕ))
      → ℕ
      → Option Str
      → Vm D
      → Cells
      → Frame D
      → Run (Stop D) (Vm D × Cells × Frame D × ℕ)
  unfolding gettop topointer tonumberx drop_values isfunction pushliteral lua_error lua_call report
  trampoline outside callee depth text vm cells f =
      if ltb (gettop f) 2 then crash assert_failed else do
        nresults ← lift vm (topointer f (negsuc 1))
        x ← lift vm (tonumberx host f (negsuc 0))
        f1 ← lift vm (drop_values f (pos 2))
        main ← lift vm (isfunction f1 (pos 1))
        if main
            then (do
              (vm', f2) ← lua_call outside callee depth vm f1 (number_or_zero x) (negsuc 0)
              done (vm', report nresults (gettop f2) cells, f2, 0))
            else do f2 ← lift vm (pushliteral f1 text); lift vm (lua_error f2 >>= λ _. crash abort)
