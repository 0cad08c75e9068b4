-- ===== src/Loader/Validation.antt =====
-- What src/loader/bytecode/json.c reads of a text that cJSON has parsed, and its tests: `validatePrototype`, and those of
-- the constants. A JSON item is what cJSON's functions say of it, NULL included.
use fluffy_vm.Prelude.{
  ℕ, zero, suc, ◌+◌, ◌-◌, ◌^◌, Bool, true, false, not, ◌&&◌, ◌||◌, List, [], ◌∷◌, Option, none,
  some, if◌then◌else◌,
}
use fluffy_vm.Prelude.Int.{pos}
use fluffy_vm.Prelude.Run.{Run, done, throw, ◌>>◌}
use fluffy_vm.Value.{Host}
use fluffy_vm.Value.Error.{Err}
use fluffy_vm.Value.Equal.{bytes_equal}

-- The members that the loader asks for.
pub data Key : Type 0 where
  constants main_prototype type_ payload prototypes instructions line_info source_file high low :
      Key

pub record Cjson (D J : Type 0) : Type 0 where
  pub parse : List ℕ → Option J
  pub is_object : J → Bool
  pub is_array : J → Bool
  pub is_string : J → Bool
  pub is_number : J → Bool
  pub get_object_item : J → Key → J
  pub array_size : J → ℕ
  pub array_item : J → ℕ → J
  pub number_value : J → D
  pub string_value : J → List ℕ

-- The texts in `errorMessage`.
pub data JsonMessage : Type 0 where
  prototype_is_not_object source_file_is_not_array prototypes_is_not_array : JsonMessage
  instructions_is_not_array line_info_is_not_array instruction_is_not_object : JsonMessage
  instruction_high_is_not_number instruction_low_is_not_number : JsonMessage
  instruction_low_is_invalid instruction_high_is_invalid invalid_line_info_array : JsonMessage
  error_parsing json_not_object constants_is_not_array invalid_constant : JsonMessage
  invalid_constant_type expect_string expect_number unknown_constant_type : JsonMessage

-- `exhausted` is the model's own: the fuel for the depth of the prototypes is used up.
pub data LoadError (D : Type 0) : Type 0 where
  message : JsonMessage → LoadError D
  failure : Err D → LoadError D
  exhausted : LoadError D

-- The names of the types of constants.
pub data Kind : Type 0 where
  string_kind integer_kind float_kind : Kind

abbrev string_text : List ℕ
string_text = b's' ∷ b't' ∷ b'r' ∷ b'i' ∷ b'n' ∷ b'g' ∷ []

abbrev integer_text : List ℕ
integer_text = b'i' ∷ b'n' ∷ b't' ∷ b'e' ∷ b'g' ∷ b'e' ∷ b'r' ∷ []

abbrev float_text : List ℕ
float_text = b'f' ∷ b'l' ∷ b'o' ∷ b'a' ∷ b't' ∷ []

unfoldable pub kind_of : List ℕ → Option Kind
unfolding bytes_equal
kind_of text =
    if bytes_equal string_text text
    then some string_kind
    else if bytes_equal integer_text text
    then some integer_kind
    else if bytes_equal float_text text
    then some float_kind
    else none

module _ {D : Type 0} where
  -- `errorMessage = ...; return false;` unless the test holds
  unfoldable pub check : Bool → JsonMessage → Run (LoadError D) (Unit {0})
  check true m = done tt
  check false m = throw (message m)

  unfoldable pub each :
      {J : Type 0} → (J → Run (LoadError D) (Unit {0})) → List J → Run (LoadError D) (Unit {0})
  each f [] = done tt
  each f (j ∷ js) = do f j; each f js

module _ {D J : Type 0} (host : Host D) (cjson : Cjson D J) where
  -- The items of an array, from the i-th on.
  unfoldable pub items_from : J → ℕ → ℕ → List J
  items_from j i zero = []
  items_from j i (suc n) = cjson.array_item j i ∷ items_from j (i + 1) n

  unfoldable pub items : J → List J
  unfolding items_from
  items j = items_from j 0 (cjson.array_size j)

  unfoldable pub less : D → D → Bool
  less x y = host.le x y && not (host.equal x y)

  -- `!(x < 0 || x > UINT32_MAX || floor(x) != x)`
  unfoldable pub is_uint32 : D → Bool
  unfolding less
  is_uint32 x = not (
      less x (host.of_long (pos 0))
      || less (host.of_long (pos (2 ^ 32 - 1))) x
      || not (host.equal (host.floor x) x))

  unfoldable pub validate_instruction : J → Run (LoadError D) (Unit {0})
  unfolding check is_uint32
  validate_instruction j = do
    check (cjson.is_object j) instruction_is_not_object
    check (cjson.is_number (cjson.get_object_item j high)) instruction_high_is_not_number
    check (cjson.is_number (cjson.get_object_item j low)) instruction_low_is_not_number
    check (is_uint32 (cjson.number_value (cjson.get_object_item j low))) instruction_low_is_invalid
    check (is_uint32 (cjson.number_value (cjson.get_object_item j high)))
        instruction_high_is_invalid

  unfoldable pub validate_line : J → Run (LoadError D) (Unit {0})
  unfolding check
  validate_line j = check (cjson.is_number j) invalid_line_info_array

  -- `validatePrototype`, on fuel for the depth of the tree.
  unfoldable pub validate_prototype : ℕ → J → Run (LoadError D) (Unit {0})
  unfolding check each items validate_instruction validate_line
  validate_prototype zero j = throw exhausted
  validate_prototype (suc fuel) j = do
    check (cjson.is_object j) prototype_is_not_object
    check (cjson.is_string (cjson.get_object_item j source_file)) source_file_is_not_array
    check (cjson.is_array (cjson.get_object_item j prototypes)) prototypes_is_not_array
    check (cjson.is_array (cjson.get_object_item j instructions)) instructions_is_not_array
    check (cjson.is_array (cjson.get_object_item j line_info)) line_info_is_not_array
    each validate_instruction (items (cjson.get_object_item j instructions))
    each validate_line (items (cjson.get_object_item j line_info))
    each (validate_prototype fuel) (items (cjson.get_object_item j prototypes))

  unfoldable pub validate_data : J → Option Kind → Run (LoadError D) (Unit {0})
  unfolding check
  validate_data d none = throw (message unknown_constant_type)
  validate_data d (some string_kind) = check (cjson.is_string d) expect_string
  validate_data d (some integer_kind) = check (cjson.is_number d) expect_number
  validate_data d (some float_kind) = check (cjson.is_number d) expect_number

  unfoldable pub validate_constant : J → Run (LoadError D) (Unit {0})
  unfolding check validate_data kind_of
  validate_constant j = do
    check (cjson.is_object j) invalid_constant
    check (cjson.is_string (cjson.get_object_item j type_)) invalid_constant_type
    validate_data (cjson.get_object_item j payload)
        (kind_of (cjson.string_value (cjson.get_object_item j type_)))
