-- ===== src/Tests/Stacks.antt =====
-- The Lua 5.4 interface at a call state with three values.
use fluffy_vm.Prelude.{ℕ, ◌≡◌, refl, arith, false, [], ◌∷◌, ◌++◌}
use fluffy_vm.Prelude.Int.{pos, negsuc}
use fluffy_vm.Prelude.Run.{Run, done}
use fluffy_vm.Value.{long, nil}
use fluffy_vm.Value.Error.{Err}
use fluffy_vm.Frame.{Frame, fresh, push, registers_num}
use fluffy_vm.Frame.Laws.{contents}
use fluffy_vm.Interpreter.Ops.{push_all}
use fluffy_vm.Interpreter.Frames.{IsState, IsLuaFrame, push_all-done}
use fluffy_vm.Api.{remove_value, rotate, rotation_count}
use fluffy_vm.Api.Rotate.{rotate_lem}
use fluffy_vm.Api.Laws.{remove_value_lem}
use fluffy_vm.Tests.Programs.{fresh-IsLuaFrame}

abbrev frame_of : Run (Err ℕ) (Frame ℕ) → Frame ℕ
frame_of (done f) = f
frame_of _ = fresh false 0 nil

abbrev three : Frame ℕ
three = frame_of (push_all (fresh false 0 nil) (long 1 ∷ long 2 ∷ long 3 ∷ []))

three_pushed : push_all (fresh false 0 nil) (long 1 ∷ long 2 ∷ long 3 ∷ []) ≡ done three
unfolding push_all push fresh
three_pushed = refl

three-IsLuaFrame : IsLuaFrame three
three-IsLuaFrame =
    (push_all-done (fresh false 0 nil) (long 1 ∷ long 2 ∷ long 3 ∷ []) fresh-IsLuaFrame
      three_pushed).0

three-contents : contents three ≡ (long 1 ∷ []) ++ long 2 ∷ long 3 ∷ []
unfolding push_all push fresh
three-contents = refl

remove_value_lem_example :
    (f' : Frame ℕ) × (remove_value three (pos 2) ≡ done f')
    × IsState registers_num f'
    × (contents f' ≡ (long 1 ∷ []) ++ long 3 ∷ [])
remove_value_lem_example =
    remove_value_lem three (long 1 ∷ []) (long 3 ∷ []) (long 2) three-IsLuaFrame three-contents

left_by_one : rotation_count 3 (negsuc 0) ≡ 2
unfolding rotation_count
left_by_one = refl

rotate_lem_example :
    rotate {A = ℕ} {E = ℕ} 0 1 3 (negsuc 0) (7 ∷ 1 ∷ 2 ∷ 3 ∷ 9 ∷ []) ≡ done (7 ∷ 2 ∷ 3 ∷ 1 ∷ 9 ∷ [])
rotate_lem_example =
    rotate_lem 0 (7 ∷ []) (1 ∷ []) (2 ∷ 3 ∷ []) (9 ∷ []) (negsuc 0) (omega arith) left_by_one
