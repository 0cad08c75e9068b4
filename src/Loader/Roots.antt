-- ===== src/Loader/Roots.antt =====
-- src/bytecode.c once more, with what `bytecode_load` does to the machine's root: every allocation is kept by a
-- reference in it until the collector reaches the object by a field, and the setters write those fields. An
-- object, its data and the reference to it are the same number.
pub mod Load
pub mod Ending
pub mod Reached
pub mod Prototypes
pub mod Constants
pub mod Laws
use fluffy_vm.Prelude.{
  ℕ, suc, ◌+◌, ◌-◌, Bool, true, false, not, List, [], ◌∷◌, ◌++◌, Option, none, some, ◌==◌,
  if◌then◌else◌, length,
}
use mathlib.Core.List.{foldl}
use fluffy_vm.Prelude.Int.{ℤ}
use fluffy_vm.Prelude.Run.{Run, done, throw, crash, abort, null_dereference, ◌>>=◌, ◌>>◌}
use fluffy_vm.Value.{Value, Str, long, double, string}
use fluffy_vm.Value.Error.{
  Err, static, out_of_memory, protobuf_failed_to_unpack_data, unsupported_bytecode,
  invalid_bytecode,
}
use fluffy_vm.Runtime.Messages.{remove_ref}
use fluffy_vm.Loader.{
  Message, Messages, prototype_message, no_messages, more_messages, ConstantType, type_string,
  type_long, type_double, Payload, data_str, data_long, data_double, Constant, BytecodeMessage,
  release_num,
}

-- The number of allocations so far, the machine's root with the newest reference first, and the messages that
-- protobuf unpacked and that are not freed.
pub record Heap : Type 0 where
  pub next : ℕ
  pub roots : List ℕ
  pub messages : ℕ

-- An object's fields for the collector.
abbrev pub Fields : Type 0
Fields = ℕ → Option ℕ

abbrev pub write_field : Fields → ℕ → Option ℕ → Fields
write_field fields i v j = if j == i then v else fields j

-- An array: the object and its length.
abbrev pub Array : Type 0
Array = Option (ℕ × ℕ)

abbrev pub array_object : Array → Option ℕ
array_object none = none
array_object (some a) = some a.0

abbrev pub array_length : Array → ℕ
array_length none = 0
array_length (some a) = a.1

-- `struct fluffyvm_prototype`, and what its arrays of instructions and of lines hold.
pub record ProtoObject : Type 0 where
  pub gc_this : ℕ
  pub fields : Fields
  pub bytecode : Option ℕ
  pub prototypes : Option ℕ
  pub prototypes_len : ℕ
  pub instructions : Option ℕ
  pub instructions_len : ℕ
  pub line_info : Option ℕ
  pub line_info_len : ℕ
  pub source_file : Str
  pub code : List ℕ
  pub lines : List ℤ

-- `prototype_write_` and `bytecode_write_` of an object.
unfoldable pub write_prototypes_array : ProtoObject → Array → ProtoObject
write_prototypes_array p a = record p {
  fields = write_field p.fields 3 (array_object a);
  prototypes = array_object a;
  prototypes_len = array_length a;
}

unfoldable pub write_instructions_array : ProtoObject → Array → ProtoObject
write_instructions_array p a = record p {
  fields = write_field p.fields 2 (array_object a);
  instructions = array_object a;
  instructions_len = array_length a;
}

unfoldable pub write_line_info_array : ProtoObject → Array → ProtoObject
write_line_info_array p a = record p {
  fields = write_field p.fields 4 (array_object a);
  line_info = array_object a;
  line_info_len = array_length a;
}

unfoldable pub write_bytecode : ProtoObject → Option ℕ → ProtoObject
write_bytecode p b = record p { fields = write_field p.fields 1 b; bytecode = b }

unfoldable pub write_source_file_name : ProtoObject → Str → ProtoObject
write_source_file_name p s = record p {
  fields = write_field p.fields 5 (some s.address);
  source_file = s;
}

-- The writes to a new prototype. Nothing is read from it before the last of them.
unfoldable pub built :
    ProtoObject → ℕ → Option ℕ → Str → Array → Array → Array → List ℕ → List ℤ → ProtoObject
unfolding write_bytecode write_source_file_name write_prototypes_array write_instructions_array
    write_line_info_array
built fresh this bytecode name inner instructions lines code line_numbers =
    let p0 = record fresh { gc_this = this; fields = write_field fresh.fields 0 (some this) } in
    let p1 = write_source_file_name (write_bytecode p0 bytecode) name in
    let p2 = write_instructions_array (write_prototypes_array p1 inner) instructions in
    let p3 = write_line_info_array (write_line_info_array p2 none) lines in
    record p3 { code = code; lines = line_numbers }

-- A prototype, and the elements of its array of prototypes.
mutual
  pub data Loaded : Type 0 where
    loaded : ProtoObject → LoadedList → Loaded

  pub data LoadedList : Type 0 where
    no_loaded : LoadedList
    more_loaded : Loaded → LoadedList → LoadedList

abbrev pub proto_object : Loaded → ProtoObject
proto_object (loaded p ps) = p

-- `struct fluffyvm_bytecode`, and what its arrays of constants and of their objects hold.
pub record BytecodeObject (D : Type 0) : Type 0 where
  pub gc_this : ℕ
  pub fields : Fields
  pub constants : Option ℕ
  pub constants_len : ℕ
  pub constants_object : Option ℕ
  pub main_prototype : Option ℕ
  pub values : List (Value D)
  pub objects : List (Option ℕ)

module _ {D : Type 0} where
  unfoldable pub write_constants_array : BytecodeObject D → Array → BytecodeObject D
  write_constants_array b a = record b {
    fields = write_field b.fields 1 (array_object a);
    constants = array_object a;
    constants_len = array_length a;
  }

  unfoldable pub write_main_prototype : BytecodeObject D → Option ℕ → BytecodeObject D
  write_main_prototype b p = record b { fields = write_field b.fields 2 p; main_prototype = p }

  unfoldable pub write_constants_object_array : BytecodeObject D → Array → BytecodeObject D
  write_constants_object_array b a = record b {
    fields = write_field b.fields 3 (array_object a);
    constants_object = array_object a;
  }

  -- `bytecode_write_constant` of the element after those that are written.
  unfoldable pub write_constant : BytecodeObject D → Value D × Option ℕ → BytecodeObject D
  write_constant b v = record b { values = b.values ++ v.0 ∷ []; objects = b.objects ++ v.1 ∷ [] }

abbrev pub message_count : Messages → ℕ
message_count no_messages = 0
message_count (more_messages m ms) = suc (message_count ms)

-- A failure leaves a heap behind as well.
abbrev pub Rooted : Type 0 → Type 0 → Type 0
Rooted D A = Run (Err D × Heap) (A × Heap)

unfoldable pub release_ref : ℕ → Heap → Heap
release_ref r h = record h { roots = remove_ref r h.roots }

module _ {D : Type 0} where
  -- The writes to the new object, and to its arrays.
  unfoldable pub filled :
      BytecodeObject D → ℕ → Array → Array → List (Value D × Option ℕ) → Option ℕ → BytecodeObject D
  unfolding write_constants_array write_constants_object_array write_constant write_main_prototype
  filled fresh this constants objects vs main =
      let b0 = record fresh { gc_this = this; fields = write_field fresh.fields 0 (some this) } in
      let b1 = write_constants_object_array (write_constants_array b0 constants) objects in
      write_main_prototype (foldl write_constant (record b1 { values = []; objects = [] }) vs) main
