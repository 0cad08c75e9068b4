-- ===== src/Loader.antt =====
-- src/bytecode.c: `bytecode_load` and the getters. A message is what protobuf unpacks (src/format/bytecode.proto);
-- the collector's allocations, and the strings', are numbered in order: `memory n` says whether the n-th
-- of them succeeds, and `n` is the address that a new string gets. `Roots` has the same function with the
-- references that it keeps; `Validation` and `Json` are the loader of JSON.
pub mod Laws
pub mod Validation
pub mod Json
pub mod Roots
use fluffy_vm.Prelude.{
  ℕ, zero, suc, ◌+◌, ◌-◌, ◌%◌, Bool, true, false, not, List, [], ◌∷◌, ◌++◌, Option, none, some,
  ◌==◌, ltb, if◌then◌else◌, length, get_elem?,
}
use fluffy_vm.Prelude.Int.{ℤ, pos, negsuc, word}
use fluffy_vm.Prelude.Run.{Run, done, throw, crash, abort, null_dereference, ◌>>=◌, ◌>>◌}
use fluffy_vm.Value.{Value, Str, long, double, string}
use fluffy_vm.Value.Error.{
  Err, static, out_of_memory, protobuf_failed_to_unpack_data, unsupported_bytecode,
  invalid_bytecode, invalid_constant_index, invalid_prototype_index,
}

-- `message Prototype`: the inner prototypes, the instructions, the lines, the file's name.
mutual
  pub data Message : Type 0 where
    prototype_message : Messages → List ℕ → List ℤ → List ℕ → Message

  pub data Messages : Type 0 where
    no_messages : Messages
    more_messages : Message → Messages → Messages

-- `struct fluffyvm_prototype`. `lineInfo` is NULL when there are no lines.
mutual
  pub data Prototype : Type 0 where
    prototype : Prototypes → List ℕ → Option (List ℤ) → Str → Prototype

  pub data Prototypes : Type 0 where
    no_prototypes : Prototypes
    more_prototypes : Prototype → Prototypes → Prototypes

-- `message Constant`: its type, and the member of the `oneof` that is set.
pub data ConstantType : Type 0 where
  type_string type_long type_double : ConstantType
  type_other : ℕ → ConstantType

pub data Payload (D : Type 0) : Type 0 where
  data_str : List ℕ → Payload D
  data_long : ℕ → Payload D
  data_double : D → Payload D
  data_not_set : Payload D

pub record Constant (D : Type 0) : Type 0 where
  pub constant_type : ConstantType
  pub payload : Payload D

pub record BytecodeMessage (D : Type 0) : Type 0 where
  pub version : ℕ
  pub constants : List (Constant D)
  pub main_prototype : Option Message

-- `struct fluffyvm_bytecode`
pub record Bytecode (D : Type 0) : Type 0 where
  pub constants : List (Value D)
  pub main_prototype : Prototype

-- FLUFFYVM_RELEASE_NUM
abbrev pub release_num : ℕ
release_num = 1

unfoldable pub prototype_at : Prototypes → ℕ → Option Prototype
prototype_at no_prototypes i = none
prototype_at (more_prototypes p ps) zero = some p
prototype_at (more_prototypes p ps) (suc i) = prototype_at ps i

unfoldable pub prototypes_len : Prototypes → ℕ
prototypes_len no_prototypes = 0
prototypes_len (more_prototypes p ps) = suc (prototypes_len ps)

module _ {D : Type 0} (memory : ℕ → Bool) where
  unfoldable pub allocate : ℕ → Run (Err D) ℕ
  allocate n = if memory n then done (suc n) else throw (static out_of_memory)

  -- The name with its terminator as a part of the string, or an empty string. A string that there is no
  -- memory for goes to `value_get_object_ptr`, which aborts.
  unfoldable pub source_file : ℕ → List ℕ → Run (Err D) (Str × ℕ)
  source_file n [] =
      if memory n
      then done (record { address = n; bytes = []; hash_code = 0 }, suc n)
      else crash abort
  source_file n (c ∷ cs) =
      if memory n
      then done (record { address = n; bytes = (c ∷ cs) ++ 0 ∷ []; hash_code = 0 }, suc n)
      else crash abort

  unfoldable pub line_info : ℕ → List ℤ → Run (Err D) (Option (List ℤ) × ℕ)
  unfolding allocate
  line_info n [] = done (none, n)
  line_info n (l ∷ ls) = do n' ← allocate n; done (some (l ∷ ls), n')

  -- `loadPrototype` of src/bytecode.c, and its loop over the inner prototypes.
  unfoldable mutual
    unfolding allocate source_file line_info

    pub load_prototype_message : ℕ → Message → Run (Err D) (Prototype × ℕ)
    load_prototype_message n (prototype_message inner instructions lines source) = do
      n1 ← allocate n
      (name, n2) ← source_file n1 source
      n3 ← allocate n2
      n4 ← allocate n3
      (info, n5) ← line_info n4 lines
      (loaded, n6) ← load_prototype_messages n5 inner
      done (prototype loaded instructions info name, n6)

    pub load_prototype_messages : ℕ → Messages → Run (Err D) (Prototypes × ℕ)
    load_prototype_messages n no_messages = done (no_prototypes, n)
    load_prototype_messages n (more_messages m ms) = do
      (p, n1) ← load_prototype_message n m
      (ps, n2) ← load_prototype_messages n1 ms
      done (more_prototypes p ps, n2)

  -- One round of the loop over the constants. A string that there is no memory for is a value that is not
  -- present, and reported as invalid bytecode.
  unfoldable pub constant_value : ℕ → ConstantType → Payload D → Run (Err D) (Value D × ℕ)
  constant_value n type_string (data_str bytes) =
      if memory n
      then done (string (record { address = n; bytes = bytes; hash_code = 0 }), suc n)
      else throw (static invalid_bytecode)
  constant_value n type_long (data_long w) = done (long w, n)
  constant_value n type_double (data_double x) = done (double x, n)
  constant_value n _ _ = throw (static invalid_bytecode)

  unfoldable pub load_constants : ℕ → List (Constant D) → Run (Err D) (List (Value D) × ℕ)
  unfolding constant_value
  load_constants n [] = done ([], n)
  load_constants n (c ∷ cs) = do
    (v, n1) ← constant_value n c.constant_type c.payload
    (vs, n2) ← load_constants n1 cs
    done (v ∷ vs, n2)

  -- `loadPrototype` makes its object before it reads the message, which may be missing.
  main_of : ℕ → Option Message → Run (Err D) (Prototype × ℕ)
  unfolding allocate load_prototype_message
  main_of n none = do n1 ← allocate n; crash null_dereference
  main_of n (some m) = load_prototype_message n m

  unpacked : ℕ → Option (BytecodeMessage D) → Run (Err D) (Bytecode D)
  unfolding allocate load_constants main_of
  unpacked n none = throw (static protobuf_failed_to_unpack_data)
  unpacked n (some m) =
      if not (m.version == release_num) then throw (static unsupported_bytecode) else do
        n1 ← allocate n
        n2 ← allocate n1
        (vs, n3) ← load_constants n2 m.constants
        (p, n4) ← main_of n3 m.main_prototype
        done (record { constants = vs; main_prototype = p })

  -- `unpack` is protobuf's.
  unfoldable pub bytecode_load :
      (List ℕ → Option (BytecodeMessage D)) → List ℕ → Run (Err D) (Bytecode D)
  unfolding allocate unpacked
  bytecode_load unpack bytes = do n ← allocate 0; unpacked n (unpack bytes)

-- `constants_len - 1` and `prototypes_len - 1`, of a `size_t`.
last_index : ℕ → ℕ
last_index len = (len + (word - 1)) % word

module _ {D : Type 0} where
  constant_at : ℤ → ℕ → Option (Value D) → Run (Err D) (Value D)
  constant_at i last none = throw (invalid_constant_index i last)
  constant_at i last (some v) = done v

  -- `bytecode_get_constant`
  unfoldable pub bytecode_get_constant : Bytecode D → ℤ → Run (Err D) (Value D)
  unfolding constant_at last_index
  bytecode_get_constant b (negsuc i) =
      throw (invalid_constant_index (negsuc i) (last_index (length b.constants)))
  bytecode_get_constant b (pos i) =
      constant_at (pos i) (last_index (length b.constants)) (get_elem? b.constants i)

  inner_at : ℤ → ℕ → Option Prototype → Run (Err D) Prototype
  inner_at i last none = throw (invalid_prototype_index i last)
  inner_at i last (some p) = done p

  -- `bytecode_prototype_get_prototype`
  unfoldable pub bytecode_prototype_get_prototype : Prototypes → ℤ → Run (Err D) Prototype
  unfolding prototype_at prototypes_len last_index inner_at
  bytecode_prototype_get_prototype ps (negsuc i) =
      throw (invalid_prototype_index (negsuc i) (last_index (prototypes_len ps)))
  bytecode_prototype_get_prototype ps (pos i) =
      inner_at (pos i) (last_index (prototypes_len ps)) (prototype_at ps i)
