-- ===== src/CallStack/Walk.antt =====
-- `coroutine_iterate_call_stack` and `coroutine_set_debug_info` of src/coroutine.c: the frames that a trace of a coroutine's call
-- stack shows, one after the other, to a consumer that may stop it.
pub mod Laws
use mathlib.Core.List.{reverse}
use fluffy_vm.Prelude.{
  ℕ, zero, suc, ◌+◌, ◌-◌, Bool, true, false, List, [], ◌∷◌, Option, none, some, ◌==◌, ltb,
  if◌then◌else◌, get_elem?, get_or, length,
}
use fluffy_vm.Prelude.Int.{ℤ, pos, negsuc}
use fluffy_vm.Prelude.Run.{Run, done, throw, crash, null_dereference, out_of_bounds, ◌>>=◌}
use fluffy_vm.CallStack.{CallStack, Jump, lock, unlock}

-- The part of `struct fluffyvm_prototype` that a trace reads.
pub record Source : Type 0 where
  pub bytecode : ℕ
  pub source_file : List ℕ
  pub line_info : Option (List ℕ)

-- The part of a call state and of its closure that a trace reads; the first three fields are `nativeDebugInfo`.
pub record CallInfo : Type 0 where
  pub source : Option (List ℕ)
  pub func_name : Option (List ℕ)
  pub line : ℤ
  pub pc : ℕ
  pub is_native : Bool
  pub func : ℕ
  pub prototype : Option Source

-- "lua function", a name that was set, and the address of a function as eight digits or more.
pub data FrameName : Type 0 where
  lua_function : FrameName
  named : List ℕ → FrameName
  address_of : ℕ → FrameName

-- "[Native]", "[Native %s]", and the file of a prototype.
pub data FrameSource : Type 0 where
  native_code : FrameSource
  native_file source_file_of : List ℕ → FrameSource

-- `struct fluffyvm_call_frame`, for the call state with its number.
pub record CallFrame : Type 0 where
  pub state : ℕ
  pub is_native : Bool
  pub name : FrameName
  pub source : FrameSource
  pub line : ℤ
  pub bytecode : Option ℕ
  pub is_main : Bool

abbrev pub bytecode_of : Option Source → Option ℕ
bytecode_of none = none
bytecode_of (some s) = some s.bytecode

-- `lineInfo[pc]`, within its length.
unfoldable pub line_at : Option (List ℕ) → ℕ → ℤ
line_at none pc = negsuc 0
line_at (some lines) pc = if ltb pc (length lines) then pos (get_or lines pc 0) else negsuc 0

unfoldable pub native_line : ℤ → ℤ
native_line (pos n) = if n == 0 then negsuc 0 else pos n
native_line (negsuc n) = negsuc 0

module _ {E : Type 0} where
  lua_frame : ℕ → CallInfo → Bool → Option Source → Run E CallFrame
  unfolding line_at
  lua_frame state i is_main none = crash null_dereference
  lua_frame state i is_main (some s) = done (record {
    state = state;
    is_native = false;
    name = lua_function;
    source = source_file_of s.source_file;
    line = line_at s.line_info i.pc;
    bytecode = some s.bytecode;
    is_main = is_main;
  })

  -- The frame of a call state.
  unfoldable pub trace_frame : ℕ → CallInfo → Bool → Run E CallFrame
  unfolding lua_frame native_line
  trace_frame state i is_main =
      if i.is_native
      then done (record {
        state = state;
        is_native = true;
        name = elim i.func_name [ none ↦ address_of i.func | some s ↦ named s ];
        source = elim i.source [ none ↦ native_code | some s ↦ native_file s ];
        line = native_line i.line;
        bytecode = bytecode_of i.prototype;
        is_main = is_main;
      })
      else lua_frame state i is_main i.prototype

  unfoldable pub framed : (ℕ → CallInfo) → ℕ → Option ℕ → Run E CallFrame
  unfolding trace_frame
  framed info p none = crash out_of_bounds
  framed info p (some s) = trace_frame s (info s) (p == 0)

  -- The frame at a position of the stack, whose bottom is at 0.
  unfoldable pub frame_at : (ℕ → CallInfo) → List ℕ → ℕ → Run E CallFrame
  unfolding framed
  frame_at info states p = framed info p (get_elem? states p)

-- `backward ? usage - i - 1 : i`
abbrev pub position : Bool → ℕ → ℕ → ℕ
position backward usage i = if backward then usage - i - 1 else i

module _ {E S : Type 0} (consumer : S → CallFrame → S × Bool) where
  -- The loop, with `rounds` of its rounds left. What the consumer keeps is its state.
  unfoldable pub walk_stack : (ℕ → CallInfo) → List ℕ → Bool → ℕ → ℕ → ℕ → S → Run E S
  unfolding frame_at
  walk_stack info states backward usage i zero s = done s
  walk_stack info states backward usage i (suc rounds) s = do
    frame ← frame_at info states (position backward usage i)
    let rest = walk_stack info states backward usage (i + 1) rounds (consumer s frame).0
    if (consumer s frame).1 then rest else done (consumer s frame).0

module _ {D S : Type 0} (consumer : S → CallFrame → S × Bool) where
  -- `coroutine_iterate_call_stack`. The list of call states has the top first.
  unfoldable pub iterate_call_stack :
      (ℕ → CallInfo) → CallStack → Bool → S → Run (Jump D) (CallStack × S)
  unfolding lock unlock walk_stack
  iterate_call_stack info c backward s = do
    c' ← lock c
    s' ←
        walk_stack consumer info (reverse c'.states) backward (length c'.states) 0
          (length c'.states) s
    done (unlock c', s')

-- `coroutine_set_debug_info`, of the current call state.
unfoldable pub set_debug_info :
    {E : Type 0}
    → (ℕ → CallInfo)
    → Option ℕ
    → Option (List ℕ)
    → Option (List ℕ)
    → ℤ
    → Run E (ℕ → CallInfo)
set_debug_info info none source func_name line = crash null_dereference
set_debug_info info (some c) source func_name line = done (λ s.
    if s == c
    then record (info s) { source = source; func_name = func_name; line = line }
    else info s)
