-- ===== src/Api.antt =====
-- The Lua 5.4 interface of src/api_layer/lua54.c on the call state of the running function, and
-- `util_collections_rotate` of src/util/util.c: the functions that move values. `Calls` calls, raises and
-- moves between coroutines, `Push` pushes and stores, `Query` asks and converts,
-- `Functions` has C functions, threads and the resuming of them.
pub mod Rotate
pub mod Laws
pub mod Calls
pub mod Push
pub mod Query
pub mod Functions
use fluffy_vm.Prelude.{
  ℕ, zero, suc, ◌+◌, ◌-◌, Bool, true, false, not, ◌&&◌, List, [], ◌∷◌, ◌==◌, leb, ltb,
  if◌then◌else◌, get_or, set, bit_and, length,
}
use fluffy_vm.Prelude.Int.{ℤ, pos, negsuc}
use fluffy_vm.Prelude.Run.{Run, done, throw, crash, abort, division_by_zero, ◌>>=◌, ◌>>◌}
use fluffy_vm.Value.{
  Value, not_present, nil, double, long, string, table, closure, bool, coroutine, full_userdata,
  light_userdata, garbage_collectable_userdata,
}
use fluffy_vm.Value.Error.{
  Err, static, expected_positive, invalid_stack_index, stack_overflow, stack_underflow,
}
use fluffy_vm.Value.Math.{rem}
use fluffy_vm.Frame.{Frame, pop, push, peek}
use fluffy_vm.Interpreter.Ops.{pop_all}

module _ {A : Type 0} (blank : A) where
  -- The inner loop: each slot from `start + n` down to `start + 1` takes what the slot below it holds.
  unfoldable pub shift : ℕ → ℕ → List A → List A
  shift start zero xs = xs
  shift start (suc n) xs = shift start n (set xs (start + suc n) (get_or xs (start + n) blank))

  unfoldable pub rotate_once : ℕ → ℕ → List A → List A
  unfolding shift
  rotate_once start len xs =
      let last = get_or xs (start + (len - 1)) blank in set (shift start (len - 1) xs) start last

  unfoldable pub rotate_times : ℕ → ℕ → ℕ → List A → List A
  unfolding rotate_once
  rotate_times start len zero xs = xs
  rotate_times start len (suc n) xs = rotate_times start len n (rotate_once start len xs)

-- `distance`, after the remainder and its sign have been seen to.
abbrev rotation : ℕ → ℤ → ℕ
rotation len (pos k) = k
rotation len (negsuc k) = len - suc k

unfoldable pub rotation_count : ℕ → ℤ → ℕ
unfolding rem
rotation_count len distance = rotation len (rem distance (pos len))

module _ {A E : Type 0} (blank : A) where
  -- `util_collections_rotate` of the `len` slots from `start` on; the remainder by 0 traps.
  unfoldable pub rotate : ℕ → ℕ → ℤ → List A → Run E (List A)
  unfolding rotate_times rotation_count
  rotate start len distance xs =
      if len == 0
      then crash division_by_zero
      else done (rotate_times blank start len (rotation_count len distance) xs)

-- `FLUFFYVM_COMPAT_LAYER_IS_PSEUDO_INDEX(idx) && idx > 0`
unfoldable pub is_pseudo : ℤ → Bool
is_pseudo (pos n) = not (bit_and n 0x8000000 == 0) && ltb 0 n
is_pseudo (negsuc n) = false

module _ {D : Type 0} where
  -- `fluffyvm_compat_lua54_lua_gettop`
  unfoldable pub gettop : Frame D → ℕ
  gettop f = f.sp

  unfoldable pub absindex : Frame D → ℤ → Run (Err D) ℕ
  absindex f (pos n) =
      if n == 0
      then throw (static invalid_stack_index)
      else if ltb f.sp n
      then throw (static invalid_stack_index)
      else done n
  absindex f (negsuc n) = if leb f.sp n then throw (static invalid_stack_index) else done (f.sp - n)

  unfoldable pub checkstack : Frame D → ℤ → Run (Err D) Bool
  checkstack f (pos n) = done (leb (f.sp + n) (length f.general_stack))
  checkstack f (negsuc n) = throw (expected_positive (negsuc n))

  -- `getValueAtStackIndex`
  unfoldable pub value_at : Frame D → ℤ → Run (Err D) (Value D)
  unfolding absindex is_pseudo peek
  value_at f idx =
      if is_pseudo idx then crash abort else do index ← absindex f idx; peek f (pos (index - 1))

  unfoldable pub ensure_stack_fits : Frame D → ℕ → Run (Err D) (Unit {0})
  unfolding checkstack
  ensure_stack_fits f n = do
    fits ← checkstack f (pos n)
    if fits then done tt else throw (static stack_overflow)

  -- `lua_copy`
  unfoldable pub copy : Frame D → ℤ → ℤ → Run (Err D) (Frame D)
  unfolding absindex value_at
  copy f from to = do
    dest ← absindex f to
    v ← value_at f from
    done (record f { general_stack = set f.general_stack (dest - 1) v })

  -- `lua_pop`; interpreter_pop raises the same message.
  unfoldable pub drop_values : Frame D → ℤ → Run (Err D) (Frame D)
  unfolding pop_all
  drop_values f (pos n) = pop_all n f
  drop_values f (negsuc n) = throw (expected_positive (negsuc n))

  -- `lua_pushvalue`
  unfoldable pub pushvalue : Frame D → ℤ → Run (Err D) (Frame D)
  unfolding ensure_stack_fits value_at push
  pushvalue f idx = do ensure_stack_fits f 1; v ← value_at f idx; push f v

  -- `lua_rotate`
  unfoldable pub lua_rotate : Frame D → ℤ → ℤ → Run (Err D) (Frame D)
  unfolding absindex rotate
  lua_rotate f idx n = do
    i ← absindex f idx
    xs ← rotate not_present (i - 1) (f.sp - (i - 1)) n f.general_stack
    done (record f { general_stack = xs })

  -- `lua_remove`
  unfoldable pub remove_value : Frame D → ℤ → Run (Err D) (Frame D)
  unfolding lua_rotate drop_values
  remove_value f idx = do f' ← lua_rotate f idx (negsuc 0); drop_values f' (pos 1)

  -- `lua_replace`
  unfoldable pub replace : Frame D → ℤ → Run (Err D) (Frame D)
  unfolding copy drop_values
  replace f idx = do f' ← copy f (negsuc 0) idx; drop_values f' (pos 1)
