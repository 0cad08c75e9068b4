-- ===== src/Tests/Fields.antt =====
-- `lua_setfield` of the field "d" of an empty table.
use fluffy_vm.Prelude.{ℕ, false, [], ◌∷◌}
use fluffy_vm.Prelude.Run.{Run, done}
use fluffy_vm.Value.{Value, Str, long, string, table, nil}
use fluffy_vm.Value.Error.{Err}
use fluffy_vm.Hashtable.{Failure}
use fluffy_vm.Hashtable.Keys.{LuaTable, hashtable_set}
use fluffy_vm.Frame.{Frame, fresh}
use fluffy_vm.Interpreter.Machine.{Vm, TableObject}
use fluffy_vm.Interpreter.Ops.{push_all}
use fluffy_vm.Tests.Machine.{machine}
use fluffy_vm.Tests.Programs.{outside}

abbrev empty_table : LuaTable machine
empty_table = record { capacity = 2; usage = 0; buckets = [] ∷ [] ∷ [] }

abbrev object : TableObject ℕ
object = record { load_factor = 400; table = empty_table }

abbrev objects : Vm ℕ
objects = record { closures = []; protos = []; tables = object ∷ [] }

abbrev field : Str
field = record { address = 5; bytes = b'd' ∷ []; hash_code = 0 }

abbrev frame_of : Run (Err ℕ) (Frame ℕ) → Frame ℕ
frame_of (done f) = f
frame_of _ = fresh false 0 nil

abbrev caller : Frame ℕ
caller = frame_of (push_all (fresh false 0 nil) (table 0 ∷ long 12 ∷ []))

abbrev stored : Run Failure (LuaTable machine)
stored =
    hashtable_set machine 400 (outside.table_memory objects) empty_table (string field) (long 12)

abbrev after_of : Run Failure (LuaTable machine) → LuaTable machine
after_of (done t) = t
after_of _ = empty_table
