-- ===== src/Api/Push.antt =====
-- src/api_layer/lua54.c: the functions that push values and write tables. A string, a closure, a table
-- or a userdata that the collector has no memory for is a parameter's `none` or `false`.
pub mod Laws
use fluffy_vm.Prelude.{
  ℕ, Bool, false, not, Option, none, some, ◌++◌, ◌∷◌, [], ◌==◌, if◌then◌else◌, length,
}
use fluffy_vm.Prelude.Int.{ℤ, pos, negsuc, pos_part}
use fluffy_vm.Prelude.Run.{Run, done, throw, crash, null_dereference, ◌>>=◌, ◌>>◌}
use fluffy_vm.Value.{
  Value, Str, Userdata, Host, not_present, nil, double, long, string, table, closure, bool,
  coroutine, light_userdata,
}
use fluffy_vm.Value.Error.{Err, static, index_of, out_of_memory}
use fluffy_vm.Value.Kind.{table_is_indexable, typename}
use fluffy_vm.Value.New.{Allocations, Cells, new_light_userdata}
use fluffy_vm.Hashtable.{Table, Alloc, Failure, new}
use fluffy_vm.Value.Hash.{hash_of}
use fluffy_vm.Value.Equal.{payload_equal}
use fluffy_vm.Frame.{Frame, push}
use fluffy_vm.Interpreter.Machine.{Vm, Stop, raised, Outside, lift}
use fluffy_vm.Interpreter.Closures.{closure_from_cfunction, add_closure}
use fluffy_vm.Interpreter.Ops.{kept, table_set}
use fluffy_vm.Runtime.Messages.{present_global}
use fluffy_vm.Api.{ensure_stack_fits, value_at, drop_values}

module _ {D : Type 0} where
  -- `ensureStackFits(L, 1)`, then `interpreter_push` whose result nobody looks at.
  unfoldable pub push_fitting : Frame D → Value D → Run (Err D) (Frame D)
  unfolding ensure_stack_fits kept push
  push_fitting f v = do ensure_stack_fits f 1; kept f (push f v)

  -- FLUFFYVM_TVALUE_NOT_PRESENT when there is no memory, with no test in the callers.
  unfoldable pub new_string : Option Str → Value D
  new_string none = not_present
  new_string (some s) = string s

  unfoldable pub pushnil : Frame D → Run (Err D) (Frame D)
  unfolding push_fitting
  pushnil f = push_fitting f nil

  unfoldable pub pushstring : Frame D → Option Str → Run (Err D) (Frame D)
  unfolding push_fitting new_string
  pushstring f s = push_fitting f (new_string s)

  unfoldable pub pushliteral : Frame D → Option Str → Run (Err D) (Frame D)
  unfolding push_fitting new_string
  pushliteral f s = push_fitting f (new_string s)

  unfoldable pub pushlstring : Frame D → Option Str → Run (Err D) (Frame D)
  unfolding push_fitting new_string
  pushlstring f s = push_fitting f (new_string s)

  unfoldable pub pushinteger : Frame D → ℕ → Run (Err D) (Frame D)
  unfolding push_fitting
  pushinteger f n = push_fitting f (long n)

  unfoldable pub pushnumber : Frame D → D → Run (Err D) (Frame D)
  unfolding push_fitting
  pushnumber f x = push_fitting f (double x)

  -- `(bool) b`
  unfoldable pub pushboolean : Frame D → ℕ → Run (Err D) (Frame D)
  unfolding push_fitting
  pushboolean f b = push_fitting f (bool (not (b == 0)))

  unfoldable pub pushglobaltable : Frame D → Run (Err D) (Frame D)
  unfolding push_fitting
  pushglobaltable f = push_fitting f f.env

  -- `lua_pushthread` of the coroutine with this number, and whether it is the main thread.
  unfoldable pub pushthread : Frame D → ℕ → ℕ → Run (Err D) (Frame D × Bool)
  unfolding push_fitting
  pushthread f co main_thread = do f' ← push_fitting f (coroutine co); done (f', co == main_thread)

  -- `module_id` is that of the Lua interface, and its userdata have type 1.
  unfoldable pub pushlightuserdata :
      Allocations D → Cells → ℕ → Frame D → ℕ → Run (Err D) (Frame D × Cells)
  unfolding ensure_stack_fits new_light_userdata kept push
  pushlightuserdata m cells module_id f ptr = do
    ensure_stack_fits f 1
    (v, cells') ← new_light_userdata m module_id 1 ptr cells
    f' ← kept f (push f v)
    done (f', cells')

  -- `lua_pushcfunction`: `cFunctionTrampoline` bound to the function with this number, which is noted, with
  -- the environment of the running closure.
  unfoldable pub pushcfunction : Outside D → Vm D → Frame D → ℕ → Run (Stop D) (Vm D × Frame D)
  unfolding ensure_stack_fits closure_from_cfunction kept push
  pushcfunction outside vm f func = do
    lift vm (ensure_stack_fits f 1)
    c ← lift vm (closure_from_cfunction outside vm func f.env)
    f' ← lift vm (kept f (push f (closure (length vm.closures))))
    done (add_closure vm (record c { lua_c_function = some func }), f')

  -- What `value_new_table` makes of the result of `hashtable_new`: whatever that reports, the message is
  -- "out of memory".
  unfoldable pub made_table :
      Vm D → D → Run Failure (Table (Value D) (Value D)) → Run (Stop D) (Vm D × Value D)
  made_table vm load_factor (done t) = done (
    record vm { tables = vm.tables ++ record { load_factor = load_factor; table = t } ∷ [] },
    table (length vm.tables),
  )
  made_table vm load_factor (throw e) = throw (raised (static out_of_memory) vm)
  made_table vm load_factor (crash x) = crash x

  -- The key that `lua_setglobal` and `lua_setfield` make.
  unfoldable pub key_of : Option Str → Run (Err D) (Value D)
  key_of none = throw (static out_of_memory)
  key_of (some s) = done (string s)

module _ {D : Type 0} (host : Host D) where
  unfoldable pub new_table : Bool → Alloc → Vm D → D → ℤ → Run (Stop D) (Vm D × Value D)
  unfolding made_table new
  new_table object_ok alloc vm load_factor capacity =
      made_table vm load_factor
        (new (hash_of host) (payload_equal host) object_ok alloc (pos_part capacity))

  -- `load_factor` is FLUFFYVM_HASHTABLE_DEFAULT_LOAD_FACTOR; `narr` is not used.
  unfoldable pub createtable :
      Bool → Alloc → Vm D → Frame D → D → ℤ → ℤ → Run (Stop D) (Vm D × Frame D)
  unfolding ensure_stack_fits new_table kept push
  createtable object_ok alloc vm f load_factor narr nrec = do
    lift vm (ensure_stack_fits f 1)
    (vm', t) ← new_table object_ok alloc vm load_factor nrec
    f' ← lift vm' (kept f (push f t))
    done (vm', f')

  unfoldable pub newtable : Bool → Alloc → Vm D → Frame D → D → Run (Stop D) (Vm D × Frame D)
  unfolding createtable
  newtable object_ok alloc vm f load_factor =
      createtable object_ok alloc vm f load_factor (pos 0) (pos 0)

  -- `value_table_set`, with the test of its result. That a table could not grow is not reported.
  unfoldable pub store : Outside D → Vm D → Value D → Value D → Value D → Run (Stop D) (Vm D)
  unfolding table_is_indexable typename table_set
  store outside vm t key v = do
    indexable ← lift vm (table_is_indexable t)
    if indexable
        then table_set host outside vm t key v
        else (lift vm (typename t) >>= λ name. throw (raised (index_of name) vm))

  unfoldable pub setglobal :
      Outside D → Vm D → Frame D → Value D → Option Str → Run (Stop D) (Vm D × Frame D)
  unfolding value_at present_global key_of store drop_values
  setglobal outside vm f global name = do
    v ← lift vm (value_at f (negsuc 0))
    t ← lift vm (present_global global)
    key ← lift vm (key_of name)
    vm' ← store outside vm t key v
    f' ← lift vm' (drop_values f (pos 1))
    done (vm', f')

  unfoldable pub setfield :
      Outside D → Vm D → Frame D → ℤ → Option Str → Run (Stop D) (Vm D × Frame D)
  unfolding value_at key_of store drop_values
  setfield outside vm f idx name = do
    t ← lift vm (value_at f idx)
    v ← lift vm (value_at f (negsuc 0))
    key ← lift vm (key_of name)
    vm' ← store outside vm t key v
    f' ← lift vm' (drop_values f (pos 1))
    done (vm', f')

  -- `lua_register`
  unfoldable pub register :
      Outside D → Vm D → Frame D → Value D → Option Str → ℕ → Run (Stop D) (Vm D × Frame D)
  unfolding pushcfunction setglobal
  register outside vm f global name func = do
    (vm', f') ← pushcfunction outside vm f func
    setglobal outside vm' f' global name
