-- ===== src/Loader/Json/Constants.antt =====
-- The constants of a JSON text in src/loader/bytecode/json.c: what each object stands for, and their loop.
use fluffy_vm.Prelude.{
  ℕ, suc, ◌≡◌, refl, ap₂, Bool, true, List, [], ◌∷◌, Option, none, some, map, All,
}
use fluffy_vm.Prelude.Int.{of_signed}
use fluffy_vm.Prelude.Run.{done, >>=-eq-done}
use fluffy_vm.Value.{Host}
use fluffy_vm.Loader.{Payload, data_str, data_long, data_double, data_not_set, Constant}
use fluffy_vm.Loader.Laws.{IsTyped}
use fluffy_vm.Loader.Validation.{
  type_, payload, Cjson, Kind, string_kind, integer_kind, float_kind, kind_of, check, each,
  validate_data, validate_constant, invalid_constant, invalid_constant_type,
}
use fluffy_vm.Loader.Json.{constant_data, load_constants_json}
use fluffy_vm.Loader.Json.Laws.{each-parts}

module _ {D J : Type 0} (host : Host D) (cjson : Cjson D J) where
  -- The constant that a JSON object with this type stands for.
  unfoldable pub payload_by : Option Kind → J → Payload D
  payload_by none d = data_not_set
  payload_by (some string_kind) d = data_str (cjson.string_value d)
  payload_by (some integer_kind) d = data_long (of_signed (host.to_long (cjson.number_value d)))
  payload_by (some float_kind) d = data_double (cjson.number_value d)

  unfoldable pub payload_json : J → Payload D
  unfolding payload_by
  payload_json j =
      payload_by (kind_of (cjson.string_value (cjson.get_object_item j type_)))
        (cjson.get_object_item j payload)

  constant_done :
      (heap : ℕ → Bool) (k : Option Kind) (d : J)
      → validate_data host cjson d k ≡ done tt
      → (c : Constant D) × (constant_data host cjson heap d k ≡ done c)
        × IsTyped c
        × (c.payload ≡ payload_by k d)
  unfolding validate_data constant_data payload_by
  constant_done heap none d h = cc
  constant_done heap (some string_kind) d h = (_, refl, tt, refl)
  constant_done heap (some integer_kind) d h = (_, refl, tt, refl)
  constant_done heap (some float_kind) d h = (_, refl, tt, refl)

  constant_valid :
      (j : J)
      → validate_constant host cjson j ≡ done tt
      → validate_data host cjson
          (cjson.get_object_item j payload)
          (kind_of (cjson.string_value (cjson.get_object_item j type_)))
        ≡ done tt
  unfolding validate_constant
  constant_valid j h =
      let (_, _, h1) = >>=-eq-done (check (cjson.is_object j) invalid_constant) _ h in
      (>>=-eq-done (check (cjson.is_string (cjson.get_object_item j type_)) invalid_constant_type) _
        h1).2

  pub constants-done :
      (heap : ℕ → Bool)
      → ((n : ℕ) → heap n ≡ true)
      → (n : ℕ) (js : List J) → each (validate_constant host cjson) js ≡ done tt
      → (cs : List (Constant D)) × (n' : ℕ) × (load_constants_json host cjson heap n js
          ≡ done (cs, n'))
        × All IsTyped cs
        × (map (λ c. c.payload) cs ≡ map payload_json js)
  unfolding load_constants_json payload_json
  constants-done heap enough n [] h = ([], n, refl, tt, refl)
  constants-done heap enough n (j ∷ js) h =
      let (first, others) = each-parts (validate_constant host cjson) j js h in
      let (c, made, typed, same) =
        constant_done heap (kind_of (cjson.string_value (cjson.get_object_item j type_)))
          (cjson.get_object_item j payload) (constant_valid j first) in
      let (cs, n', rest, all_typed, all_same) = constants-done heap enough (suc n) js others in
      (
        c ∷ cs,
        n',
        rw (enough n, made, rest) refl,
        (typed, all_typed),
        ap₂ (λ (d : Payload D) (ds : List (Payload D)). d ∷ ds) same all_same,
      )
