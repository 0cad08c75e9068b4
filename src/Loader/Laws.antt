-- ===== src/Loader/Laws.antt =====
-- What `bytecode_load` of src/bytecode.c makes of a message: nothing is lost.
use fluffy_vm.Prelude.{
  ℕ, suc, ◌≡◌, ◌≢◌, refl, ap, ap₂, Bool, true, List, [], ◌∷◌, ◌++◌, Option, none, some, All, map,
  ◌==◌, false, arith,
}
use fluffy_vm.Prelude.Int.{ℤ}
use fluffy_vm.Prelude.Run.{done, throw}
use fluffy_vm.Value.{Value, Str, long, double, string}
use fluffy_vm.Value.Error.{static, protobuf_failed_to_unpack_data, unsupported_bytecode}
use fluffy_vm.Loader.{
  Message, Messages, prototype_message, no_messages, more_messages, Prototype, Prototypes,
  prototype, no_prototypes, more_prototypes, ConstantType, type_string, type_long, type_double,
  Payload, data_str, data_long, data_double, data_not_set, Constant, BytecodeMessage, Bytecode,
  release_num, allocate, source_file, line_info, load_prototype_message, load_prototype_messages,
  constant_value, load_constants, bytecode_load,
}

-- The message that a loaded prototype stands for: a name without its terminator, and no lines for NULL.
unfoldable pub without_last : List ℕ → List ℕ
without_last [] = []
without_last (c ∷ []) = []
without_last (c ∷ d ∷ ds) = c ∷ without_last (d ∷ ds)

unfoldable pub lines_of : Option (List ℤ) → List ℤ
lines_of none = []
lines_of (some ls) = ls

unfoldable mutual
  unfolding without_last lines_of

  pub message_of : Prototype → Message
  message_of (prototype inner instructions info name) =
      prototype_message (messages_of inner) instructions (lines_of info) (without_last name.bytes)

  pub messages_of : Prototypes → Messages
  messages_of no_prototypes = no_messages
  messages_of (more_prototypes p ps) = more_messages (message_of p) (messages_of ps)

without_last-append : (cs : List ℕ) (c : ℕ) → without_last (cs ++ c ∷ []) ≡ cs
unfolding without_last
without_last-append [] c = refl
without_last-append (d ∷ []) c = refl
without_last-append (d ∷ e ∷ es) c = ap (λ r. d ∷ r) (without_last-append (e ∷ es) c)

module _ {D : Type 0} (memory : ℕ → Bool) (enough : (n : ℕ) → memory n ≡ true) where
  allocate-done : (n : ℕ) → allocate {D = D} memory n ≡ done (suc n)
  unfolding allocate
  allocate-done n = rw (enough n) refl

  source_file-done :
      (n : ℕ) (cs : List ℕ)
      → (s : Str) × (source_file {D = D} memory n cs ≡ done (s, suc n))
        × (without_last s.bytes ≡ cs)
  unfolding source_file without_last
  source_file-done n [] =
      (record { address = n; bytes = []; hash_code = 0 }, rw (enough n) refl, refl)
  source_file-done n (c ∷ cs) = (
    record { address = n; bytes = (c ∷ cs) ++ 0 ∷ []; hash_code = 0 },
    rw (enough n) refl,
    without_last-append (c ∷ cs) 0,
  )

  line_info-done :
      (n : ℕ) (ls : List ℤ)
      → (info : Option (List ℤ)) × (n' : ℕ) × (line_info {D = D} memory n ls ≡ done (info, n'))
        × (lines_of info ≡ ls)
  unfolding line_info lines_of
  line_info-done n [] = (none, n, refl, refl)
  line_info-done n (l ∷ ls) = (some (l ∷ ls), suc n, rw (allocate-done n) refl, refl)

  mutual
    unfolding load_prototype_message load_prototype_messages message_of messages_of

    -- With memory for every allocation, `loadPrototype` returns a prototype with the instructions, the lines, the
    -- name and the inner prototypes of the message.
    pub load_prototype_lem :
        (n : ℕ) (m : Message)
        → (p : Prototype) × (n' : ℕ) × (load_prototype_message {D = D} memory n m ≡ done (p, n'))
          × (message_of p ≡ m)
    load_prototype_lem n (prototype_message inner instructions lines source) =
        let (name, named, same_name) = source_file-done (suc n) source in
        let (info, n5, informed, same_lines) = line_info-done (suc (suc (suc (suc n)))) lines in
        let (ps, n6, loaded, same_inner) = load_prototypes_lem n5 inner in
        (
          prototype ps instructions info name,
          n6,
          rw
              (
                allocate-done n,
                named,
                allocate-done (suc (suc n)),
                allocate-done (suc (suc (suc n))),
                informed,
                loaded,
              )
              refl,
          rw (same_name, same_lines, same_inner) refl,
        )

    load_prototypes_lem :
        (n : ℕ) (ms : Messages)
        → (ps : Prototypes) × (n' : ℕ) × (load_prototype_messages {D = D} memory n ms
            ≡ done (ps, n'))
          × (messages_of ps ≡ ms)
    load_prototypes_lem n no_messages = (no_prototypes, n, refl, refl)
    load_prototypes_lem n (more_messages m ms) =
        let (p, n1, first, same_m) = load_prototype_lem n m in
        let (ps, n2, others, same_ms) = load_prototypes_lem n1 ms in
        (more_prototypes p ps, n2, rw (first, others) refl, rw (same_m, same_ms) refl)

module _ {D : Type 0} where
  -- A constant whose type says which member is set.
  abbrev Agrees : ConstantType → Payload D → Type 0
  Agrees type_string (data_str bytes) = Unit
  Agrees type_long (data_long w) = Unit
  Agrees type_double (data_double x) = Unit
  Agrees _ _ = ⊥

  abbrev pub IsTyped : Constant D → Type 0
  IsTyped c = Agrees c.constant_type c.payload

  -- The payload that a value stands for.
  unfoldable pub payload_of : Value D → Payload D
  payload_of (string s) = data_str s.bytes
  payload_of (long w) = data_long w
  payload_of (double x) = data_double x
  payload_of _ = data_not_set

module _ {D : Type 0} (memory : ℕ → Bool) (enough : (n : ℕ) → memory n ≡ true) where
  constant_value-done :
      (n : ℕ) (t : ConstantType) (d : Payload D)
      → Agrees t d
      → (v : Value D) × (n' : ℕ) × (constant_value memory n t d ≡ done (v, n')) × (payload_of v ≡ d)
  unfolding constant_value payload_of
  constant_value-done n type_string (data_str bytes) h = (
    string (record { address = n; bytes = bytes; hash_code = 0 }),
    suc n,
    rw (enough n) refl,
    refl,
  )
  constant_value-done n type_long (data_long w) h = (long w, n, refl, refl)
  constant_value-done n type_double (data_double x) h = (double x, n, refl, refl)
  constant_value-done _ _ _ h = absurd h

  load_constants-done :
      (n : ℕ) (cs : List (Constant D))
      → All IsTyped cs
      → (vs : List (Value D)) × (n' : ℕ) × (load_constants memory n cs ≡ done (vs, n'))
        × (map payload_of vs ≡ map (λ c. c.payload) cs)
  unfolding load_constants
  load_constants-done n [] h = ([], n, refl, refl)
  load_constants-done n (c ∷ cs) h =
      let (v, n1, first, same) = constant_value-done n c.constant_type c.payload h.0 in
      let (vs, n2, others, same_rest) = load_constants-done n1 cs h.1 in
      (
        v ∷ vs,
        n2,
        rw (first, others) refl,
        ap₂ (λ (d : Payload D) (ds : List (Payload D)). d ∷ ds) same same_rest,
      )

  -- `bytecode_load` with memory for every allocation: bytes that protobuf cannot unpack and messages of another
  -- version are refused with their messages. Of a message of this version with well-typed constants and
  -- a main prototype, every constant and the whole tree of prototypes is in the result.
  pub bytecode_load_lem :
      (unpack : List ℕ → Option (BytecodeMessage D)) (bytes : List ℕ)
      → (unpack bytes ≡ none
          → bytecode_load memory unpack bytes ≡ throw (static protobuf_failed_to_unpack_data))
        × ((b : BytecodeMessage D)
            → unpack bytes ≡ some b
            → (b.version ≢ release_num
                → bytecode_load memory unpack bytes ≡ throw (static unsupported_bytecode))
              × ((m : Message)
                  → b.version ≡ release_num
                  → All IsTyped b.constants
                  → b.main_prototype ≡ some m
                  → (r : Bytecode D) × (bytecode_load memory unpack bytes ≡ done r)
                    × (map payload_of r.constants ≡ map (λ c. c.payload) b.constants)
                    × (message_of r.main_prototype ≡ m)))
  unfolding bytecode_load
  bytecode_load_lem unpack bytes = (
    λ e. rw (allocate-done memory enough 0, e) refl,
    λ b e. (
      λ other.
          let differs : (b.version == release_num) ≡ false = ground arith in
          rw (allocate-done memory enough 0, e, differs) refl,
      λ m same typed main.
          let (vs, n3, constants, same_vs) = load_constants-done 3 b.constants typed in
          let (p, n4, loaded, same_p) = load_prototype_lem {D = D} memory enough n3 m in
          (
            record { constants = vs; main_prototype = p },
            rw
                (
                  allocate-done memory enough 0,
                  e,
                  same,
                  allocate-done memory enough 1,
                  allocate-done memory enough 2,
                  constants,
                  main,
                  loaded,
                )
                refl,
            same_vs,
            same_p,
          ),
    ),
  )
