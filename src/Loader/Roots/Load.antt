-- ===== src/Loader/Roots/Load.antt =====
-- `bytecode_load` and `loadPrototype` of src/bytecode.c with their references in the root: what is taken away, when, and at
-- which label.
use fluffy_vm.Prelude.{
  ℕ, suc, ◌-◌, Bool, not, List, [], ◌∷◌, ◌++◌, Option, none, some, ◌==◌, if◌then◌else◌, length,
}
use fluffy_vm.Prelude.Int.{ℤ}
use fluffy_vm.Prelude.Run.{done, throw, crash, abort, null_dereference, ◌>>=◌}
use fluffy_vm.Value.{Value, Str, long, double, string}
use fluffy_vm.Value.Error.{
  Err, static, out_of_memory, protobuf_failed_to_unpack_data, unsupported_bytecode,
  invalid_bytecode,
}
use fluffy_vm.Loader.{
  Message, Messages, prototype_message, no_messages, more_messages, ConstantType, type_string,
  type_long, type_double, Payload, data_str, data_long, data_double, Constant, BytecodeMessage,
  release_num,
}
use fluffy_vm.Loader.Roots.{
  Heap, Array, ProtoObject, Loaded, LoadedList, loaded, no_loaded, more_loaded, proto_object,
  BytecodeObject, message_count, Rooted, release_ref, built, filled,
}

abbrev name_bytes : List ℕ → List ℕ
name_bytes [] = []
name_bytes (d ∷ ds) = (d ∷ ds) ++ 0 ∷ []

module _ {D : Type 0} where
  -- The label `error`: the reference of the object itself is removed.
  unfoldable pub or_release : {A : Type 0} → ℕ → Rooted D A → Rooted D A
  unfolding release_ref
  or_release r (done x) = done x
  or_release r (throw x) = throw (x.0, release_ref r x.1)
  or_release r (crash x) = crash x

  -- `free_unpacked`, on the way out and at the label `error`.
  unfoldable pub and_free : {A : Type 0} → Rooted D A → Rooted D A
  and_free (done x) = done (x.0, record x.1 { messages = x.1.messages - 1 })
  and_free (throw x) = throw (x.0, record x.1 { messages = x.1.messages - 1 })
  and_free (crash x) = crash x

module _ {D : Type 0} (memory : ℕ → Bool) where
  unfoldable pub new_object : Err D → Heap → Rooted D ℕ
  new_object e h =
      if memory h.next
      then done (h.next, record h { next = suc h.next; roots = h.next ∷ h.roots })
      else throw (e, h)

  -- An object whose reference is removed once it is written to a field.
  unfoldable pub temporary : Err D → Heap → Rooted D ℕ
  unfolding new_object release_ref
  temporary e h = do (a, h1) ← new_object e h; done (a, release_ref a h1)

  -- The name with its terminator as a part of the string, or an empty string.
  unfoldable pub source_name : List ℕ → Heap → Rooted D Str
  unfolding temporary
  source_name cs h =
      if memory h.next
      then (do
        (a, h1) ← temporary (static out_of_memory) h
        done (record { address = a; bytes = name_bytes cs; hash_code = 0 }, h1))
      else crash abort

  unfoldable pub line_array : List ℤ → Heap → Rooted D Array
  unfolding temporary
  line_array [] h = done (none, h)
  line_array (l ∷ ls) h = do
    (a, h1) ← temporary (static out_of_memory) h
    done (some (a, suc (length ls)), h1)

  module _ (fresh : ProtoObject) (bytecode : Option ℕ) where
    -- `loadPrototype`; `fresh` is what the memory of a new prototype holds. Its loop takes the reference of each
    -- inner prototype away when it is in the array.
    unfoldable mutual
      unfolding new_object temporary source_name line_array built or_release release_ref

      pub load_rooted : Message → Heap → Rooted D Loaded
      load_rooted (prototype_message inner code lines source) h = do
        (this, h1) ← new_object (static out_of_memory) h
        or_release this (do
          (name, h2) ← source_name source h1
          (prototypes, h3) ← temporary (static out_of_memory) h2
          (instructions, h4) ← temporary (static out_of_memory) h3
          (line_info, h5) ← line_array lines h4
          (ps, h6) ← load_rooted_list inner h5
          done (
            loaded
                (built fresh this bytecode name (some (prototypes, message_count inner))
                  (some (instructions, length code)) line_info code lines)
                ps,
            h6,
          ))

      pub load_rooted_list : Messages → Heap → Rooted D LoadedList
      load_rooted_list no_messages h = done (no_loaded, h)
      load_rooted_list (more_messages m ms) h = do
        (p, h1) ← load_rooted m h
        (ps, h2) ← load_rooted_list ms (release_ref (proto_object p).gc_this h1)
        done (more_loaded p ps, h2)

  -- The string of a constant keeps its reference until it is written to both arrays.
  unfoldable pub constant_rooted : ConstantType → Payload D → Heap → Rooted D (Value D × Option ℕ)
  unfolding temporary
  constant_rooted type_string (data_str bytes) h = do
    (a, h1) ← temporary (static invalid_bytecode) h
    done ((string (record { address = a; bytes = bytes; hash_code = 0 }), some a), h1)
  constant_rooted type_long (data_long w) h = done ((long w, none), h)
  constant_rooted type_double (data_double x) h = done ((double x, none), h)
  constant_rooted _ _ h = throw (static invalid_bytecode, h)

  unfoldable pub constants_rooted : List (Constant D) → Heap → Rooted D (List (Value D × Option ℕ))
  unfolding constant_rooted
  constants_rooted [] h = done ([], h)
  constants_rooted (c ∷ cs) h = do
    (v, h1) ← constant_rooted c.constant_type c.payload h
    (vs, h2) ← constants_rooted cs h1
    done (v ∷ vs, h2)

  module _ (fresh_proto : ProtoObject) (fresh : BytecodeObject D) where
    unfoldable pub main_rooted : Option ℕ → Option Message → Heap → Rooted D Loaded
    unfolding new_object or_release load_rooted release_ref
    main_rooted this none h = do
      (p, h1) ← new_object (static out_of_memory) h
      or_release p (crash null_dereference)
    main_rooted this (some m) h = do
      (p, h1) ← load_rooted fresh_proto this m h
      done (p, release_ref (proto_object p).gc_this h1)

    unfoldable pub message_rooted :
        ℕ → BytecodeMessage D → Heap → Rooted D (BytecodeObject D × Loaded)
    unfolding temporary constants_rooted main_rooted filled
    message_rooted this m h =
        if not (m.version == release_num) then throw (static unsupported_bytecode, h) else do
          (constants, h1) ← temporary (static out_of_memory) h
          (objects, h2) ← temporary (static out_of_memory) h1
          (vs, h3) ← constants_rooted m.constants h2
          (main, h4) ← main_rooted (some this) m.main_prototype h3
          done (
            (
              filled fresh this (some (constants, length m.constants))
                  (some (objects, length m.constants)) vs (some (proto_object main).gc_this),
              main,
            ),
            h4,
          )

    unfoldable pub unpacked_rooted :
        ℕ → Option (BytecodeMessage D) → Heap → Rooted D (BytecodeObject D × Loaded)
    unfolding message_rooted and_free
    unpacked_rooted this none h = throw (static protobuf_failed_to_unpack_data, h)
    unpacked_rooted this (some m) h =
        and_free (message_rooted this m (record h { messages = suc h.messages }))

    -- `bytecode_load`: the new object and its main prototype.
    unfoldable pub bytecode_load_rooted :
        (List ℕ → Option (BytecodeMessage D)) → List ℕ → Heap → Rooted D (BytecodeObject D × Loaded)
    unfolding new_object or_release unpacked_rooted
    bytecode_load_rooted unpack bytes h = do
      (this, h1) ← new_object (static out_of_memory) h
      or_release this (unpacked_rooted this (unpack bytes) h1)
