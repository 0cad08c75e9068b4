-- ===== src/Tests/Resuming.antt =====
-- The coroutines and the C functions of the Lua interface, at concrete call states.
use fluffy_vm.Prelude.{
  ℕ, ◌<◌, ◌≡◌, ◌≢◌, refl, arith, true, false, [], ◌∷◌, ◌++◌, Option, some, get_elem?,
}
use fluffy_vm.Prelude.Int.{pos, negsuc}
use fluffy_vm.Prelude.Run.{Run, done}
use fluffy_vm.Value.{Str, long, nil, closure}
use fluffy_vm.Value.Error.{Err}
use fluffy_vm.Value.New.{Allocations, Cells}
use fluffy_vm.Frame.{Frame, fresh, push, registers_num}
use fluffy_vm.Frame.Laws.{contents}
use fluffy_vm.Interpreter.Machine.{Closure, Vm, Stop, Outside}
use fluffy_vm.Interpreter.Ops.{push_all}
use fluffy_vm.Interpreter.Frames.{IsState, IsLuaFrame, push_all-done}
use fluffy_vm.Interpreter.Results.{padded, returned_values}
use fluffy_vm.Api.Push.{pushcfunction}
use fluffy_vm.Api.Functions.{stage, trampoline, tocfunction, iscfunction}
use fluffy_vm.Api.Functions.Laws.{pushcfunction-tocfunction}
use fluffy_vm.Api.Functions.Resume.{resume_lem}
use fluffy_vm.Tests.Machine.{machine}
use fluffy_vm.Tests.Programs.{loaded, outside, fresh-IsLuaFrame}

abbrev frame_of : Run (Err ℕ) (Frame ℕ) → Frame ℕ
frame_of (done f) = f
frame_of _ = fresh false 0 nil

-- A coroutine with a function and one argument.
abbrev target : Frame ℕ
target = frame_of (push_all (fresh false 0 nil) (closure 0 ∷ long 5 ∷ []))

target_pushed : push_all (fresh false 0 nil) (closure 0 ∷ long 5 ∷ []) ≡ done target
unfolding push_all push fresh
target_pushed = refl

target-IsLuaFrame : IsLuaFrame target
target-IsLuaFrame =
    (push_all-done (fresh false 0 nil) (closure 0 ∷ long 5 ∷ []) fresh-IsLuaFrame target_pushed).0

target-contents : contents target ≡ closure 0 ∷ long 5 ∷ []
unfolding push_all push fresh
target-contents = refl

-- The collector puts the object 4 at 600, and nresults is at 700.
abbrev memory : Allocations ℕ
memory = record {
  malloc = some 3;
  unwritten = 0;
  object = some 4;
  object_data = λ o. done 600;
  statics_ready = true;
}

abbrev cells : Cells
cells a = 77

resume_lem_example :
    (g' : Frame ℕ) × (cells' : Cells) × (stage memory cells 2 (fresh false 0 nil) target (pos 1) 700
      ≡ done (g', cells'))
    × (cells' 600 ≡ 700)
    × ((outside : Outside ℕ) (callee : Vm ℕ → Frame ℕ → Run (Stop ℕ) (Vm ℕ × Frame ℕ × ℕ))
          (depth : ℕ) (text : Option Str) (vm vm' : Vm ℕ) (h : Frame ℕ) (cells'' : Cells) (k : ℕ)
        → trampoline machine outside callee depth text vm cells' g' ≡ done (vm', cells'', h, k)
        → (e e' : Frame ℕ) × (count : ℕ) × (contents e ≡ long 5 ∷ [])
          × (e.closure_id ≡ 0)
          × (callee vm e ≡ done (vm', e', count))
          × (contents h ≡ padded e'.sp (returned_values e' count))
          × (cells'' 600 ≡ h.sp)
          × (◌≢◌ {A = ℕ} 700 600 → cells'' 700 ≡ 77))
unfolding fresh push_all push
resume_lem_example =
    resume_lem machine memory cells 2 700 3 4 600 0 (fresh false 0 nil) target (long 5 ∷ [])
      fresh-IsLuaFrame target-IsLuaFrame target-contents (omega arith) (omega arith)
      (refl, refl, refl) refl

pushcfunction-tocfunction_example :
    (vm' : Vm ℕ) × (f' : Frame ℕ) × (c : Closure ℕ) × (pushcfunction outside loaded
        (fresh false 0 nil)
        9
      ≡ done (vm', f'))
    × IsState registers_num f'
    × (contents f' ≡ contents {D = ℕ} (fresh false 0 nil) ++ closure 1 ∷ [])
    × (tocfunction vm' f' (negsuc 0) ≡ done (some 9))
    × (iscfunction vm' f' (negsuc 0) ≡ done true)
    × (get_elem? vm'.closures 1 ≡ some c)
    × (c.env ≡ nil)
    × ((i : ℕ) → i < 1 → get_elem? vm'.closures i ≡ get_elem? loaded.closures i)
unfolding fresh
pushcfunction-tocfunction_example =
    pushcfunction-tocfunction outside loaded (fresh false 0 nil) 9 fresh-IsLuaFrame (omega arith)
      refl
