-- ===== src/Tests/Loading.antt =====
-- A JSON text with one constant and a prototype of one instruction.
use fluffy_vm.Prelude.{
  ℕ, ◌+◌, ◌*◌, ◌%◌, ◌^◌, ◌<◌, ◌≡◌, refl, sym, ◌∙◌, arith, Bool, true, false, List, [], ◌∷◌, Option,
  none, some, map,
}
use fluffy_vm.Prelude.Int.{pos}
use fluffy_vm.Prelude.Run.{Run, done}
use fluffy_vm.Loader.{
  BytecodeMessage, Bytecode, prototype_message, no_messages, type_long, data_long,
}
use fluffy_vm.Loader.Laws.{message_of, payload_of}
use fluffy_vm.Loader.Validation.{
  constants, main_prototype, type_, payload, prototypes, instructions, line_info, source_file, high,
  low, Key, Cjson, LoadError, is_uint32, less, items, each, validate_constant, validate_prototype,
}
use fluffy_vm.Loader.Json.{bytecode_of_json, json_load, int32_of}
use fluffy_vm.Loader.Json.Laws.{IsInt32}
use fluffy_vm.Loader.Json.Constants.{payload_json}
use fluffy_vm.Loader.Json.Tree.{Describes, json_load_lem}
use fluffy_vm.Tests.Machine.{machine}

-- The items of the document. `absent` is NULL.
data Item : Type 0 where
  absent document constant_array main constant type_name number word_array word word_high word_low :
      Item
  line_array line name no_inner : Item

item_at : Item → Key → Item
item_at document constants = constant_array
item_at document main_prototype = main
item_at constant type_ = type_name
item_at constant payload = number
item_at word high = word_high
item_at word low = word_low
item_at main instructions = word_array
item_at main line_info = line_array
item_at main source_file = name
item_at main prototypes = no_inner
item_at _ _ = absent

first_item : Item → ℕ → Item
first_item constant_array i = constant
first_item word_array i = word
first_item line_array i = line
first_item _ i = absent

size_of : Item → ℕ
size_of no_inner = 0
size_of _ = 1

number_at : Item → ℕ
number_at number = 42
number_at word_high = 7
number_at word_low = 9
number_at _ = 1

text_at : Item → List ℕ
text_at type_name = b'i' ∷ b'n' ∷ b't' ∷ b'e' ∷ b'g' ∷ b'e' ∷ b'r' ∷ []
text_at _ = b'm' ∷ []

is_object : Item → Bool
is_object document = true
is_object main = true
is_object constant = true
is_object word = true
is_object _ = false

is_array : Item → Bool
is_array constant_array = true
is_array word_array = true
is_array line_array = true
is_array no_inner = true
is_array _ = false

is_string : Item → Bool
is_string type_name = true
is_string name = true
is_string _ = false

is_number : Item → Bool
is_number number = true
is_number word_high = true
is_number word_low = true
is_number line = true
is_number _ = false

-- The only text that parses has one byte.
parsed_text : List ℕ → Option Item
parsed_text (c ∷ []) = some document
parsed_text _ = none

abbrev cjson : Cjson ℕ Item
cjson = record {
  parse = parsed_text;
  is_object = is_object;
  is_array = is_array;
  is_string = is_string;
  is_number = is_number;
  get_object_item = item_at;
  array_size = size_of;
  array_item = first_item;
  number_value = number_at;
  string_value = text_at;
}

abbrev always : ℕ → Bool
always n = true

abbrev packed : BytecodeMessage ℕ
packed = record {
  version = 1;
  constants = record { constant_type = type_long; payload = data_long 42 } ∷ [];
  main_prototype =
      some (prototype_message no_messages ((7 * 2 ^ 32 + 9) ∷ []) (pos 1 ∷ []) (b'm' ∷ []));
}

abbrev pack : BytecodeMessage ℕ → List ℕ
pack b = []

abbrev unpack : List ℕ → Option (BytecodeMessage ℕ)
unpack bytes = some packed

document_packed : bytecode_of_json machine cjson always 2 document ≡ done packed
unfolding bytecode_of_json item_at first_item number_at text_at is_object is_array is_string
    is_number size_of
document_packed = refl

unpack-pack :
    (b : BytecodeMessage ℕ)
    → bytecode_of_json machine cjson always 2 document ≡ done b
    → unpack (pack b) ≡ some b
unpack-pack b h =
    let e : ◌≡◌ {A = Run (LoadError ℕ) (BytecodeMessage ℕ)} (done packed) (done b) =
      sym document_packed ∙ h in
    cc

machine_exact :
    (x : ℕ)
    → is_uint32 machine cjson x ≡ true
    → (n : ℕ) × (machine.to_long x ≡ pos n) × (n < 2 ^ 32)
unfolding is_uint32 less
machine_exact x h = (x, refl, ground arith)

machine_exact_int :
    (x : ℕ) → IsInt32 (machine.to_long x) → int32_of (machine.to_int x % 2 ^ 32) ≡ machine.to_long x
unfolding int32_of
machine_exact_int x h = ground (arith, h)

parsed : parsed_text (b'x' ∷ []) ≡ some document
unfolding parsed_text
parsed = refl

document-object : is_object document ≡ true
unfolding is_object
document-object = refl

constants-array : is_array (item_at document constants) ≡ true
unfolding is_array item_at
constants-array = refl

constants-valid :
    each (validate_constant machine cjson) (items machine cjson (item_at document constants))
    ≡ done tt
unfolding each validate_constant items item_at first_item text_at is_object is_array is_string
    is_number size_of
constants-valid = refl

prototype-valid : validate_prototype machine cjson 2 (item_at document main_prototype) ≡ done tt
unfolding validate_prototype item_at first_item number_at is_object is_array is_string is_number
    size_of
prototype-valid = refl

json_load_lem_example :
    (r : Bytecode ℕ) × (json_load machine cjson always always pack unpack 2 false (b'x' ∷ [])
      ≡ (false, done r))
    × (map payload_of r.constants
        ≡ map (payload_json machine cjson) (items machine cjson (item_at document constants)))
    × Describes machine cjson (item_at document main_prototype) (message_of r.main_prototype)
json_load_lem_example =
    json_load_lem machine cjson machine_exact machine_exact_int always (λ n. refl) always pack
      unpack 2 (b'x' ∷ []) document (λ n. refl) unpack-pack parsed document-object constants-array
      constants-valid prototype-valid
