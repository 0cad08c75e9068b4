-- ===== src/Api/Functions/Laws.antt =====
-- src/api_layer/lua54.c: a C function that is pushed is the one that is read back; and the type of each index.
use fluffy_vm.Prelude.{
  ℕ, zero, suc, ◌+◌, ◌<◌, ◌≡◌, refl, arith, true, false, List, [], ◌∷◌, ◌++◌, none, some, length,
  get_elem?, leb, ltb,
}
use fluffy_vm.Prelude.Int.{negsuc}
use fluffy_vm.Prelude.Run.{done}
use fluffy_vm.Value.{Value, closure}
use fluffy_vm.Value.Error.{
  StaticString, typenames_nil, typenames_string, typenames_double_num, typenames_long_num,
  typenames_table, typenames_closure, typenames_light_userdata, typenames_full_userdata,
  typenames_garbage_collectable_userdata, typenames_bool, typenames_coroutine,
}
use fluffy_vm.Frame.{Frame, general_stack_size}
use fluffy_vm.Frame.Laws.{contents, push_lem}
use fluffy_vm.Interpreter.Machine.{Closure, Vm, Outside}
use fluffy_vm.Interpreter.Closures.{closure_new_common, closure_from_cfunction, add_closure}
use fluffy_vm.Interpreter.Ops.{kept}
use fluffy_vm.Interpreter.Native.{closure_of}
use fluffy_vm.Interpreter.Frames.{IsState}
use fluffy_vm.Api.{value_at, ensure_stack_fits, checkstack}
use fluffy_vm.Api.Push.{pushcfunction}
use fluffy_vm.Api.Push.Laws.{value_at-top}
use fluffy_vm.Api.Query.{
  LuaType, lua_tnone, lua_tnil, lua_tboolean, lua_tlightuserdata, lua_tnumber, lua_tstring,
  lua_ttable, lua_tfunction, lua_tuserdata, lua_tthread, is_type, type_of, lua_type, has_type,
  is_outside,
}
use fluffy_vm.Api.Functions.{
  TypeName, name_boolean, name_nil, name_number, name_userdata, name_table, name_function,
  name_string, name_thread, tocfunction, iscfunction, closure_object, c_function_of,
}

get_elem?-snoc : {A : Type 0} (xs : List A) (v : A) → get_elem? (xs ++ v ∷ []) (length xs) ≡ some v
get_elem?-snoc [] v = refl
get_elem?-snoc (x ∷ xs) v = get_elem?-snoc xs v

get_elem?-append_left :
    {A : Type 0} (xs ys : List A) (i : ℕ) → i < length xs → get_elem? (xs ++ ys) i ≡ get_elem? xs i
get_elem?-append_left [] ys i h = absurd (omega arith)
get_elem?-append_left (x ∷ xs) ys zero h = refl
get_elem?-append_left (x ∷ xs) ys (suc i) h = get_elem?-append_left xs ys i (omega arith)

-- The type and the name of a value of the Lua interface, from what `value_typename` calls the value.
abbrev pub type_named : StaticString → LuaType × TypeName
type_named typenames_nil = (lua_tnil, name_nil)
type_named typenames_string = (lua_tstring, name_string)
type_named typenames_double_num = (lua_tnumber, name_number)
type_named typenames_long_num = (lua_tnumber, name_number)
type_named typenames_table = (lua_ttable, name_table)
type_named typenames_closure = (lua_tfunction, name_function)
type_named typenames_light_userdata = (lua_tlightuserdata, name_userdata)
type_named typenames_full_userdata = (lua_tuserdata, name_userdata)
type_named typenames_garbage_collectable_userdata = (lua_tlightuserdata, name_userdata)
type_named typenames_bool = (lua_tboolean, name_boolean)
type_named typenames_coroutine = (lua_tthread, name_thread)
type_named _ = (lua_tnone, name_nil)

module _ {D : Type 0} where
  -- Room for one value on a well-formed stack.
  pub ensured :
      {r : ℕ} (f : Frame D)
      → IsState r f
      → f.sp < general_stack_size
      → ensure_stack_fits f 1 ≡ done tt
  unfolding ensure_stack_fits checkstack
  ensured f w room =
      let fits : leb (f.sp + 1) (length f.general_stack) ≡ true =
        rw w.base.stack_array (ground arith) in
      rw fits refl

  closure_object-some :
      (vm : Vm D) (id : ℕ) {c : Closure D}
      → get_elem? vm.closures id ≡ some c
      → closure_object vm id ≡ done c
  unfolding closure_object
  closure_object-some vm id at = rw (closure_object, at) refl

  tocfunction_top :
      (vm : Vm D) (f : Frame D) (id : ℕ) (c : Closure D)
      → value_at f (negsuc 0) ≡ done (closure id)
      → get_elem? vm.closures id ≡ some c
      → c.prototype ≡ none
      → tocfunction vm f (negsuc 0) ≡ done c.lua_c_function
  unfolding tocfunction c_function_of
  tocfunction_top vm f id c top at native = rw (top, closure_object-some vm id at, native) refl

  iscfunction_top :
      (vm : Vm D) (f : Frame D) (id func : ℕ) (c : Closure D)
      → value_at f (negsuc 0) ≡ done (closure id)
      → get_elem? vm.closures id ≡ some c
      → c.prototype ≡ none
      → c.lua_c_function ≡ some func
      → iscfunction vm f (negsuc 0) ≡ done true
  unfolding iscfunction has_type lua_type is_outside is_type type_of closure_of
  iscfunction_top vm f id func c top at native noted =
      let inside : ltb f.sp 0 ≡ false = ground arith in
      rw (inside, top, closure_object-some vm id at, native, noted) refl

  -- `lua_pushcfunction` with room and memory: on top is a new closure, from which `lua_tocfunction` reads the
  -- function back and which is a C function for `lua_iscfunction`; its environment is that of the running
  -- closure, and the closures before it are as they were.
  pub pushcfunction-tocfunction :
      {r : ℕ} (outside : Outside D) (vm : Vm D) (f : Frame D) (func : ℕ)
      → IsState r f
      → f.sp < general_stack_size
      → outside.closure_ok vm ≡ true
      → (vm' : Vm D) × (f' : Frame D) × (c : Closure D) × (pushcfunction outside vm f func
          ≡ done (vm', f'))
        × IsState r f'
        × (contents f' ≡ contents f ++ closure (length vm.closures) ∷ [])
        × (tocfunction vm' f' (negsuc 0) ≡ done (some func))
        × (iscfunction vm' f' (negsuc 0) ≡ done true)
        × (get_elem? vm'.closures (length vm.closures) ≡ some c)
        × (c.env ≡ f.env)
        × ((i : ℕ) → i < length vm.closures → get_elem? vm'.closures i ≡ get_elem? vm.closures i)
  unfolding pushcfunction closure_from_cfunction closure_new_common kept
  pushcfunction-tocfunction {r} outside vm f func w room memory =
      let v : Value D = closure (length vm.closures) in
      let c : Closure D = record {
        prototype = none;
        func = func;
        env = f.env;
        lua_c_function = some func;
      } in
      let (f', pushed, base, holds, regs, sp) = push_lem f v w.base tt room in
      let w' : IsState r f' = record { base = base; register_array = rw regs w.register_array } in
      let vm' = add_closure vm c in
      let top = value_at-top f' (contents f) v w' holds in
      let at = get_elem?-snoc vm.closures c in
      (
        vm',
        f',
        c,
        rw (ensured f w room, memory, pushed) refl,
        w',
        holds,
        tocfunction_top vm' f' (length vm.closures) c top at refl,
        iscfunction_top vm' f' (length vm.closures) func c top at refl refl,
        at,
        refl,
        λ i lt. get_elem?-append_left vm.closures (c ∷ []) i lt,
      )
