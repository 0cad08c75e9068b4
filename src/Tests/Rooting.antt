-- ===== src/Tests/Rooting.antt =====
-- What a load leaves in the machine's root, at concrete inputs.
use fluffy_vm.Prelude.{ℕ, ◌≡◌, refl, Bool, true, List, [], ◌∷◌, none, some, ltb}
use fluffy_vm.Prelude.Int.{pos}
use fluffy_vm.Prelude.Run.{done, throw}
use fluffy_vm.Runtime.Messages.{remove_ref}
use fluffy_vm.Loader.{
  Message, no_messages, more_messages, prototype_message, BytecodeMessage, type_string, type_long,
  data_str, data_long, bytecode_load,
}
use fluffy_vm.Loader.Roots.{ProtoObject, BytecodeObject, Loaded, Rooted}
use fluffy_vm.Loader.Roots.Load.{bytecode_load_rooted}
use fluffy_vm.Loader.Roots.Ending.{Agrees}
use fluffy_vm.Loader.Roots.Laws.{wholes, bytecode_load_rooted_lem}

abbrev inner_message : Message
inner_message = prototype_message no_messages (7 ∷ []) [] []

abbrev main_message : Message
main_message =
    prototype_message (more_messages inner_message no_messages) (1 ∷ 2 ∷ []) (pos 4 ∷ []) (97 ∷ [])

abbrev message : BytecodeMessage ℕ
message = record {
  version = 1;
  constants =
      record { constant_type = type_string; payload = data_str (98 ∷ []) }
      ∷ record { constant_type = type_long; payload = data_long 5 }
      ∷ [];
  main_prototype = some main_message;
}

abbrev blank_proto : ProtoObject
blank_proto = record {
  gc_this = 0;
  fields = λ _. none;
  bytecode = none;
  prototypes = none;
  prototypes_len = 0;
  instructions = none;
  instructions_len = 0;
  line_info = none;
  line_info_len = 0;
  source_file = record { address = 0; bytes = []; hash_code = 0 };
  code = [];
  lines = [];
}

abbrev blank : BytecodeObject ℕ
blank = record {
  gc_this = 0;
  fields = λ _. none;
  constants = none;
  constants_len = 0;
  constants_object = none;
  main_prototype = none;
  values = [];
  objects = [];
}

abbrev load_with : (ℕ → Bool) → Rooted ℕ (BytecodeObject ℕ × Loaded)
load_with memory =
    bytecode_load_rooted memory blank_proto blank (λ _. some message) []
      (record { next = 0; roots = 30 ∷ []; messages = 0 })

abbrev root_of : Rooted ℕ (BytecodeObject ℕ × Loaded) → List ℕ
root_of (done x) = x.1.roots
root_of (throw x) = x.1.roots
root_of _ = []

-- The inner prototype's instructions are the twelfth allocation.
failed_root : root_of (load_with (λ n. ltb n 12)) ≡ 30 ∷ []
unfolding bytecode_load_rooted remove_ref
failed_root = refl

loaded_root : root_of (load_with (λ n. true)) ≡ 0 ∷ 30 ∷ []
unfolding bytecode_load_rooted remove_ref
loaded_root = refl

bytecode_load_rooted_lem_example :
    Agrees
      (wholes 0 (0 ∷ 30 ∷ []) (30 ∷ []) 0)
      (load_with (λ n. ltb n 12))
      (bytecode_load (λ n. ltb n 12) (λ _. some message) [])
bytecode_load_rooted_lem_example =
    bytecode_load_rooted_lem (λ n. ltb n 12) blank_proto blank (λ _. some message) [] (30 ∷ []) 0
