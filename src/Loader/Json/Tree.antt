-- ===== src/Loader/Json/Tree.antt =====
-- From JSON to prototypes: a text that passes the validation of src/loader/bytecode/json.c is loaded whole.
use fluffy_vm.Prelude.{
  ℕ, zero, suc, ◌^◌, ◌%◌, ◌<◌, ◌≡◌, refl, ap, ◌∙◌, Bool, true, false, List, [], ◌∷◌, Option, some,
  map, All, All₂,
}
use fluffy_vm.Prelude.Int.{pos}
use fluffy_vm.Prelude.Run.{Run, done, >>=-eq-done}
use fluffy_vm.Value.{Host}
use fluffy_vm.Loader.{
  Message, Messages, prototype_message, no_messages, more_messages, BytecodeMessage, Bytecode,
}
use fluffy_vm.Loader.Laws.{IsTyped, message_of, payload_of, bytecode_load_lem}
use fluffy_vm.Loader.Validation.{
  constants, main_prototype, prototypes, instructions, line_info, source_file, Cjson, LoadError,
  check, each, items, is_uint32, validate_instruction, validate_line, validate_prototype,
  validate_constant, prototype_is_not_object, source_file_is_not_array, prototypes_is_not_array,
  instructions_is_not_array, line_info_is_not_array,
}
use fluffy_vm.Loader.Json.{
  instruction_of, line_of, int32_of, malloc, load_each, load_prototype_json, bytecode_of_json,
  json_load,
}
use fluffy_vm.Loader.Json.Constants.{payload_json, constants-done}
use fluffy_vm.Loader.Json.Laws.{
  each-parts, IsInstruction, IsInt32, IsLine, instruction_of_lem, line_of_lem,
}

module _ {D J : Type 0} (host : Host D) (cjson : Cjson D J) where
  -- The JSON object that a message comes from: instruction by instruction, its lines, its file's name, and so
  -- for the inner prototypes in order.
  unfoldable mutual
    pub Describes : J → Message → Type 0
    Describes j (prototype_message inner words lines name) =
        All₂ (IsInstruction host cjson) (items host cjson (cjson.get_object_item j instructions))
          words
        × All₂ (IsLine host cjson) (items host cjson (cjson.get_object_item j line_info)) lines
        × (name ≡ cjson.string_value (cjson.get_object_item j source_file))
        × DescribeAll (items host cjson (cjson.get_object_item j prototypes)) inner

    pub DescribeAll : List J → Messages → Type 0
    DescribeAll [] no_messages = Unit
    DescribeAll (j ∷ js) (more_messages m ms) = Describes j m × DescribeAll js ms
    DescribeAll _ _ = ⊥

  prototype_valid :
      (fuel : ℕ) (j : J)
      → validate_prototype host cjson (suc fuel) j ≡ done tt
      → (each
            (validate_instruction host cjson)
            (items host cjson (cjson.get_object_item j instructions))
          ≡ done tt)
        × (each
              (validate_prototype host cjson fuel)
              (items host cjson (cjson.get_object_item j prototypes))
            ≡ done tt)
  unfolding validate_prototype
  prototype_valid fuel j h =
      let (_, _, h1) = >>=-eq-done (check (cjson.is_object j) prototype_is_not_object) _ h in
      let (_, _, h2) =
        >>=-eq-done
          (check (cjson.is_string (cjson.get_object_item j source_file)) source_file_is_not_array) _
          h1 in
      let (_, _, h3) =
        >>=-eq-done
          (check (cjson.is_array (cjson.get_object_item j prototypes)) prototypes_is_not_array) _
          h2 in
      let (_, _, h4) =
        >>=-eq-done
          (check (cjson.is_array (cjson.get_object_item j instructions)) instructions_is_not_array)
          _ h3 in
      let (_, _, h5) =
        >>=-eq-done
          (check (cjson.is_array (cjson.get_object_item j line_info)) line_info_is_not_array) _
          h4 in
      let (u, valid, h6) =
        >>=-eq-done
          (each (validate_instruction host cjson)
            (items host cjson (cjson.get_object_item j instructions)))
          _ h5 in
      let (_, _, h7) =
        >>=-eq-done
          (each (validate_line host cjson) (items host cjson (cjson.get_object_item j line_info))) _
          h6 in
      (valid ∙ ap done (unit u), h7)
    where
      unit : (u : Unit {0}) → u ≡ tt
      unit u = refl

module _ {D J : Type 0} (host : Host D) (cjson : Cjson D J)
    (exact : (x : D)
      → is_uint32 host cjson x ≡ true
      → (n : ℕ) × (host.to_long x ≡ pos n) × (n < 2 ^ 32))
    (exact_int : (x : D)
      → IsInt32 (host.to_long x)
      → int32_of (host.to_int x % 2 ^ 32) ≡ host.to_long x)
    (heap : ℕ → Bool) (enough : (n : ℕ) → heap n ≡ true) where
  instructions-done :
      (js : List J)
      → each (validate_instruction host cjson) js ≡ done tt
      → All₂ (IsInstruction host cjson) js (map (instruction_of host cjson) js)
  instructions-done [] h = tt
  instructions-done (j ∷ js) h =
      let (first, others) = each-parts (validate_instruction host cjson) j js h in
      (instruction_of_lem host cjson exact j first, instructions-done js others)

  lines-done : (js : List J) → All₂ (IsLine host cjson) js (map (line_of host cjson) js)
  lines-done [] = tt
  lines-done (j ∷ js) = (line_of_lem host cjson exact_int j, lines-done js)

  malloc-done : (n : ℕ) → malloc {D = D} heap n ≡ done (suc n)
  unfolding malloc
  malloc-done n = rw (enough n) refl

  -- A loop over inner prototypes that load one by one.
  load_each-done :
      (valid : J → Run (LoadError D) (Unit {0})) (load : ℕ → J → Run (LoadError D) (Message × ℕ))
      → ((n : ℕ) (j : J)
          → valid j ≡ done tt
          → (m : Message) × (n' : ℕ) × (load n j ≡ done (m, n')) × Describes host cjson j m)
      → (n : ℕ) (js : List J) → each valid js ≡ done tt
      → (ms : Messages) × (n' : ℕ) × (load_each heap load n js ≡ done (ms, n'))
        × DescribeAll host cjson js ms
  unfolding load_each DescribeAll
  load_each-done valid load ih n [] h = (no_messages, n, refl, tt)
  load_each-done valid load ih n (j ∷ js) h =
      let (first, others) = each-parts valid j js h in
      let (m, n1, loaded, described) = ih n j first in
      let (ms, n2, rest, all_described) = load_each-done valid load ih n1 js others in
      (more_messages m ms, n2, rw (loaded, rest) refl, (described, all_described))

  load_prototype_json_lem :
      (fuel n : ℕ) (j : J)
      → validate_prototype host cjson fuel j ≡ done tt
      → (m : Message) × (n' : ℕ) × (load_prototype_json host cjson heap fuel n j ≡ done (m, n'))
        × Describes host cjson j m
  unfolding validate_prototype load_prototype_json Describes
  load_prototype_json_lem zero n j h = cc
  load_prototype_json_lem (suc fuel) n j h =
      let (words, inner) = prototype_valid host cjson fuel j h in
      let (ms, n3, loaded, described) =
        load_each-done (validate_prototype host cjson fuel)
          (load_prototype_json host cjson heap fuel) (load_prototype_json_lem fuel) (suc (suc n))
          (items host cjson (cjson.get_object_item j prototypes)) inner in
      (
        prototype_message ms
            (map (instruction_of host cjson)
              (items host cjson (cjson.get_object_item j instructions)))
            (map (line_of host cjson) (items host cjson (cjson.get_object_item j line_info)))
            (cjson.string_value (cjson.get_object_item j source_file)),
        suc (suc n3),
        rw (malloc-done n, malloc-done (suc n), loaded, malloc-done n3, malloc-done (suc n3)) refl,
        (
          instructions-done (items host cjson (cjson.get_object_item j instructions)) words,
          lines-done (items host cjson (cjson.get_object_item j line_info)),
          refl,
          described,
        ),
      )

  -- What is packed, for a text that passes the validation.
  bytecode_of_json_lem :
      (fuel : ℕ) (j : J)
      → cjson.is_object j ≡ true
      → cjson.is_array (cjson.get_object_item j constants) ≡ true
      → each (validate_constant host cjson) (items host cjson (cjson.get_object_item j constants))
        ≡ done tt
      → validate_prototype host cjson fuel (cjson.get_object_item j main_prototype) ≡ done tt
      → (b : BytecodeMessage D) × (m : Message) × (bytecode_of_json host cjson heap fuel j ≡ done b)
        × (b.version ≡ 1)
        × All IsTyped b.constants
        × (map (λ c. c.payload) b.constants
            ≡ map (payload_json host cjson) (items host cjson (cjson.get_object_item j constants)))
        × (b.main_prototype ≡ some m)
        × Describes host cjson (cjson.get_object_item j main_prototype) m
  unfolding bytecode_of_json check
  bytecode_of_json_lem fuel j object array valid tree =
      let (cs, n2, filled, typed, same) =
        constants-done host cjson heap enough 1
          (items host cjson (cjson.get_object_item j constants)) valid in
      let (m, n3, built, described) =
        load_prototype_json_lem fuel n2 (cjson.get_object_item j main_prototype) tree in
      (
        record { version = 1; constants = cs; main_prototype = some m },
        m,
        rw (object, array, valid, tree, malloc-done 0, filled, built, malloc-done n3) refl,
        refl,
        typed,
        same,
        refl,
        described,
      )

  -- With memory for every allocation, and when protobuf unpacks the message that it has packed: a text whose JSON passes the
  -- validation is loaded. Its lock is free again; the constants of the result are those of the JSON, in
  -- order; and the tree of its prototypes is the tree in the JSON, with each instruction the word that its
  -- `high` and `low` halves make, every file name kept, and each line an int32, which is
  -- the number in the JSON when that is one.
  pub json_load_lem :
      (memory : ℕ → Bool) (pack : BytecodeMessage D → List ℕ)
      (unpack : List ℕ → Option (BytecodeMessage D)) (fuel : ℕ) (text : List ℕ) (j : J)
      → ((n : ℕ) → memory n ≡ true)
      → ((b : BytecodeMessage D)
          → bytecode_of_json host cjson heap fuel j ≡ done b
          → unpack (pack b) ≡ some b)
      → cjson.parse text ≡ some j
      → cjson.is_object j ≡ true
      → cjson.is_array (cjson.get_object_item j constants) ≡ true
      → each (validate_constant host cjson) (items host cjson (cjson.get_object_item j constants))
        ≡ done tt
      → validate_prototype host cjson fuel (cjson.get_object_item j main_prototype) ≡ done tt
      → (r : Bytecode D) × (json_load host cjson heap memory pack unpack fuel false text
          ≡ (false, done r))
        × (map payload_of r.constants
            ≡ map (payload_json host cjson) (items host cjson (cjson.get_object_item j constants)))
        × Describes host cjson
            (cjson.get_object_item j main_prototype)
            (message_of r.main_prototype)
  unfolding json_load
  json_load_lem memory pack unpack fuel text j plenty inverse parsed object array valid tree =
      let (b, m, built, version, typed, constants_same, main, described) =
        bytecode_of_json_lem fuel j object array valid tree in
      let (r, loaded, same, same_tree) =
        ((bytecode_load_lem memory plenty unpack (pack b)).1 b (inverse b built)).1 m version typed
          main in
      (r, rw (parsed, built, loaded) refl, same ∙ constants_same, rw same_tree described)
