-- ===== src/Loader/Json.antt =====
-- src/loader/bytecode/json.c. A JSON item is what cJSON's functions (src/parser/cjson.c) say of it, the NULL that
-- `cJSON_GetObjectItem` returns included. `heap n` says whether the n-th call of `malloc` or `calloc` succeeds.
pub mod Laws
pub mod Constants
pub mod Tree
use fluffy_vm.Prelude.{
  ℕ, zero, suc, ◌+◌, ◌-◌, ◌*◌, ◌%◌, ◌^◌, bit_or, Bool, true, false, not, ◌&&◌, ◌||◌, List, [], ◌∷◌,
  Option, none, some, map, if◌then◌else◌, ltb,
}
use fluffy_vm.Prelude.Int.{ℤ, pos, negsuc, pos_part, of_signed, word}
use fluffy_vm.Prelude.Run.{
  Run, done, throw, crash, null_dereference, assert_failed, deadlock, ◌>>=◌, ◌>>◌,
}
use fluffy_vm.Value.{Host}
use fluffy_vm.Value.Error.{Err, static, out_of_memory}
use fluffy_vm.Value.Equal.{bytes_equal}
use fluffy_vm.Loader.{
  Message, Messages, prototype_message, no_messages, more_messages, Payload, data_str, data_long,
  data_double, ConstantType, type_string, type_long, type_double, Constant, BytecodeMessage,
  Bytecode, bytecode_load,
}
use fluffy_vm.Loader.Validation.{
  constants, main_prototype, type_, payload, prototypes, instructions, line_info, source_file, high,
  low, Key, Cjson, JsonMessage, LoadError, Kind, kind_of, check, each, items_from, items, less,
  is_uint32, validate_instruction, validate_line, validate_prototype, validate_data,
  validate_constant, prototype_is_not_object, source_file_is_not_array, prototypes_is_not_array,
  instructions_is_not_array, line_info_is_not_array, instruction_is_not_object,
  instruction_high_is_not_number, instruction_low_is_not_number, instruction_low_is_invalid,
  instruction_high_is_invalid, invalid_line_info_array, error_parsing, json_not_object,
  constants_is_not_array, invalid_constant, invalid_constant_type, expect_string, expect_number,
  unknown_constant_type, message, failure, exhausted, string_kind, integer_kind, float_kind,
}

-- The number that 32 bits stand for.
unfoldable pub int32_of : ℕ → ℤ
int32_of w = if ltb w (2 ^ 31) then pos w else negsuc (2 ^ 32 - w - 1)

module _ {D J : Type 0} (host : Host D) (cjson : Cjson D J) where
  -- `(uint64_t) cJSON_GetNumberValue(...)`
  unfoldable pub uint64_of : D → ℕ
  uint64_of x = pos_part (host.to_long x) % word

  -- `(high << 32) | low`
  unfoldable pub instruction_of : J → ℕ
  unfolding uint64_of
  instruction_of j =
      bit_or ((uint64_of (cjson.number_value (cjson.get_object_item j high)) * 2 ^ 32) % word)
        (uint64_of (cjson.number_value (cjson.get_object_item j low)))

  -- `(int32_t) cJSON_GetNumberValue(...)`
  unfoldable pub line_of : J → ℤ
  unfolding int32_of
  line_of j = int32_of (host.to_int (cjson.number_value j) % 2 ^ 32)

module _ {D : Type 0} (heap : ℕ → Bool) where
  unfoldable pub malloc : ℕ → Run (LoadError D) ℕ
  malloc n = if heap n then done (suc n) else throw (failure (static out_of_memory))

  unfoldable pub load_each :
      {J : Type 0}
      → (ℕ → J → Run (LoadError D) (Message × ℕ))
      → ℕ
      → List J
      → Run (LoadError D) (Messages × ℕ)
  load_each f n [] = done (no_messages, n)
  load_each f n (j ∷ js) = do
    (m, n1) ← f n j
    (ms, n2) ← load_each f n1 js
    done (more_messages m ms, n2)

module _ {D J : Type 0} (host : Host D) (cjson : Cjson D J) (heap : ℕ → Bool) where
  -- `loadPrototype` of src/loader/bytecode/json.c
  unfoldable pub load_prototype_json : ℕ → ℕ → J → Run (LoadError D) (Message × ℕ)
  unfolding malloc load_each items instruction_of line_of
  load_prototype_json zero n j = throw exhausted
  load_prototype_json (suc fuel) n j = do
    n1 ← malloc heap n
    n2 ← malloc heap n1
    (inner, n3) ←
        load_each heap (load_prototype_json fuel) n2
          (items host cjson (cjson.get_object_item j prototypes))
    n4 ← malloc heap n3
    n5 ← malloc heap n4
    done (
      prototype_message inner
          (map (instruction_of host cjson)
            (items host cjson (cjson.get_object_item j instructions)))
          (map (line_of host cjson) (items host cjson (cjson.get_object_item j line_info)))
          (cjson.string_value (cjson.get_object_item j source_file)),
      n5,
    )

  unfoldable pub constant_data : J → Option Kind → Run (LoadError D) (Constant D)
  constant_data d none = crash assert_failed
  constant_data d (some string_kind) =
      done (record { constant_type = type_string; payload = data_str (cjson.string_value d) })
  constant_data d (some integer_kind) = done (record {
    constant_type = type_long;
    payload = data_long (of_signed (host.to_long (cjson.number_value d)));
  })
  constant_data d (some float_kind) =
      done (record { constant_type = type_double; payload = data_double (cjson.number_value d) })

  -- The filling loop. `memcpy` into the result of `malloc` comes before the test for NULL.
  unfoldable pub load_constants_json : ℕ → List J → Run (LoadError D) (List (Constant D) × ℕ)
  unfolding constant_data kind_of
  load_constants_json n [] = done ([], n)
  load_constants_json n (j ∷ js) = if not (heap n) then crash null_dereference else do
    c ←
        constant_data (cjson.get_object_item j payload)
          (kind_of (cjson.string_value (cjson.get_object_item j type_)))
    (cs, n') ← load_constants_json (suc n) js
    done (c ∷ cs, n')

  -- The work between the lock and the unlock, after parsing: the message that is packed.
  unfoldable pub bytecode_of_json : ℕ → J → Run (LoadError D) (BytecodeMessage D)
  unfolding check each items validate_constant validate_prototype malloc load_constants_json
      load_prototype_json
  bytecode_of_json fuel j = do
    check (cjson.is_object j) json_not_object
    check (cjson.is_array (cjson.get_object_item j constants)) constants_is_not_array
    each (validate_constant host cjson) (items host cjson (cjson.get_object_item j constants))
    validate_prototype host cjson fuel (cjson.get_object_item j main_prototype)
    n1 ← malloc heap 0
    (cs, n2) ← load_constants_json n1 (items host cjson (cjson.get_object_item j constants))
    (m, n3) ← load_prototype_json fuel n2 (cjson.get_object_item j main_prototype)
    n4 ← malloc heap n3
    done (record { version = 1; constants = cs; main_prototype = some m })

  module _ (memory : ℕ → Bool) (pack : BytecodeMessage D → List ℕ)
      (unpack : List ℕ → Option (BytecodeMessage D)) where
    reported : Run (Err D) (Bytecode D) → Run (LoadError D) (Bytecode D)
    reported (done b) = done b
    reported (throw e) = throw (failure e)
    reported (crash x) = crash x

    -- The lock afterwards, and the result: the error path unlocks only when there is a JSON item to delete.
    load_parsed : ℕ → Option J → Bool × Run (LoadError D) (Bytecode D)
    unfolding bytecode_of_json bytecode_load reported
    load_parsed fuel none = (true, throw (message error_parsing))
    load_parsed fuel (some j) =
        (false, bytecode_of_json fuel j >>= λ b. reported (bytecode_load memory unpack (pack b)))

    -- `bytecode_loader_json_load`, with `cjson_lock` before and after. `pack` and `unpack` are protobuf's.
    unfoldable pub json_load : ℕ → Bool → List ℕ → Bool × Run (LoadError D) (Bytecode D)
    unfolding load_parsed
    json_load fuel true text = (true, crash deadlock)
    json_load fuel false text = load_parsed fuel (cjson.parse text)
