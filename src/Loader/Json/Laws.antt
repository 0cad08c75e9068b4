-- ===== src/Loader/Json/Laws.antt =====
-- What `bytecode_loader_json_load` of src/loader/bytecode/json.c makes of a text.
use fluffy_vm.Prelude.{
  ◌∷◌, ℕ, ◌+◌, ◌*◌, ◌%◌, ◌^◌, ◌<◌, ◌≡◌, refl, ap₂, ◌∙◌, bit_or, Bool, true, false, List, Option,
  none, arith, Bool-cases, inl, inr, ltb,
}
use fluffy_vm.Prelude.Words.{bit_or-shift}
use fluffy_vm.Prelude.Int.{ℤ, pos, negsuc, word}
use fluffy_vm.Prelude.Run.{Run, done, throw, crash, deadlock, >>=-eq-done}
use fluffy_vm.Value.{Host}
use fluffy_vm.Loader.{BytecodeMessage}
use fluffy_vm.Loader.Validation.{
  LoadError, each, high, low, Cjson, JsonMessage, error_parsing, instruction_is_not_object,
  instruction_high_is_not_number, instruction_low_is_not_number, instruction_low_is_invalid,
  instruction_high_is_invalid, message, check, is_uint32, validate_instruction,
}
use fluffy_vm.Loader.Json.{line_of, int32_of, instruction_of, uint64_of, json_load}

module _ {D J : Type 0} (host : Host D) (cjson : Cjson D J) (heap memory : ℕ → Bool)
    (pack : BytecodeMessage D → List ℕ) (unpack : List ℕ → Option (BytecodeMessage D)) where
  -- A text that cJSON does not parse is refused with the lock kept, and no later load, of whatever text,
  -- comes back.
  pub json_load-lock :
      (fuel later : ℕ) (text next : List ℕ)
      → cjson.parse text ≡ none
      → (json_load host cjson heap memory pack unpack fuel false text
          ≡ (true, throw (message error_parsing)))
        × (json_load host cjson heap memory pack unpack later
              (json_load host cjson heap memory pack unpack fuel false text).0
              next
            ≡ (true, crash deadlock))
  unfolding json_load
  json_load-lock fuel later text next e = (rw e refl, rw e refl)

abbrev pub IsInt32 : ℤ → Type 0
IsInt32 (pos n) = n < 2 ^ 31
IsInt32 (negsuc n) = n < 2 ^ 31

int32_of-IsInt32 : (w : ℕ) → w < 2 ^ 32 → IsInt32 (int32_of w)
unfolding int32_of
int32_of-IsInt32 w h = elim (Bool-cases (ltb w (2 ^ 31))) [
  | inl e ↦ rw e (ground arith)
  | inr e ↦ rw e (ground arith)
]

-- The parts of a loop over a list that does not fail.
pub each-parts :
    {D J : Type 0} (f : J → Run (LoadError D) (Unit {0})) (j : J) (js : List J)
    → each f (j ∷ js) ≡ done tt
    → (f j ≡ done tt) × (each f js ≡ done tt)
unfolding each
each-parts f j js h = let (u, first, others) = >>=-eq-done (f j) _ h in (first, others)

module _ {D J : Type 0} (host : Host D) (cjson : Cjson D J) where
  -- An instruction's word, from the two numbers of its JSON object.
  pub record IsInstruction (j : J) (w : ℕ) : Type 0 where
    pub high_half : ℕ
    pub low_half : ℕ
    pub from_high : host.to_long (cjson.number_value (cjson.get_object_item j high)) ≡ pos high_half
    pub from_low : host.to_long (cjson.number_value (cjson.get_object_item j low)) ≡ pos low_half
    pub high_bound : high_half < 2 ^ 32
    pub low_bound : low_half < 2 ^ 32
    pub value : w ≡ high_half * 2 ^ 32 + low_half

  -- A line, from its number: an int32, and that number when it is one.
  abbrev pub IsLine : J → ℤ → Type 0
  IsLine j l =
      IsInt32 l
      × (IsInt32 (host.to_long (cjson.number_value j)) → l ≡ host.to_long (cjson.number_value j))

  check-done : (b : Bool) (m : JsonMessage) → check {D = D} b m ≡ done tt → b ≡ true
  unfolding check
  check-done true m h = refl
  check-done false m h = cc

  -- The tests of a valid instruction.
  numbers_valid :
      (j : J)
      → validate_instruction host cjson j ≡ done tt
      → (is_uint32 host cjson (cjson.number_value (cjson.get_object_item j low)) ≡ true)
        × (is_uint32 host cjson (cjson.number_value (cjson.get_object_item j high)) ≡ true)
  unfolding validate_instruction
  numbers_valid j h =
      let (_, _, h1) = >>=-eq-done (check (cjson.is_object j) instruction_is_not_object) _ h in
      let (_, _, h2) =
        >>=-eq-done
          (check (cjson.is_number (cjson.get_object_item j high)) instruction_high_is_not_number) _
          h1 in
      let (_, _, h3) =
        >>=-eq-done
          (check (cjson.is_number (cjson.get_object_item j low)) instruction_low_is_not_number) _
          h2 in
      let (_, low_ok, h4) =
        >>=-eq-done
          (check (is_uint32 host cjson (cjson.number_value (cjson.get_object_item j low)))
            instruction_low_is_invalid)
          _ h3 in
      (check-done _ instruction_low_is_invalid low_ok, check-done _ instruction_high_is_invalid h4)

module _ {D J : Type 0} (host : Host D) (cjson : Cjson D J)
    (exact : (x : D)
      → is_uint32 host cjson x ≡ true
      → (n : ℕ) × (host.to_long x ≡ pos n) × (n < 2 ^ 32)) where
  pub instruction_of_lem :
      (j : J)
      → validate_instruction host cjson j ≡ done tt
      → IsInstruction host cjson j (instruction_of host cjson j)
  unfolding instruction_of uint64_of
  instruction_of_lem j h =
      let (low_ok, high_ok) = numbers_valid host cjson j h in
      let (l, from_low, l_bound) = exact _ low_ok in
      let (hi, from_high, h_bound) = exact _ high_ok in
      record {
        high_half = hi;
        low_half = l;
        from_high = from_high;
        from_low = from_low;
        high_bound = h_bound;
        low_bound = l_bound;
        value =
            rw (from_high, from_low)
              (ap₂ bit_or (shifted hi h_bound) (small l l_bound) ∙ bit_or-shift 32 hi l l_bound);
      }
    where
      shifted : (n : ℕ) → n < 2 ^ 32 → n % word * 2 ^ 32 % word ≡ n * 2 ^ 32
      shifted n lt = omega arith

      small : (n : ℕ) → n < 2 ^ 32 → n % word ≡ n
      small n lt = omega arith

module _ {D J : Type 0} (host : Host D) (cjson : Cjson D J)
    (exact_int : (x : D)
      → IsInt32 (host.to_long x)
      → int32_of (host.to_int x % 2 ^ 32) ≡ host.to_long x) where
  pub line_of_lem : (j : J) → IsLine host cjson j (line_of host cjson j)
  unfolding line_of
  line_of_lem j =
      let w = host.to_int (cjson.number_value j) % 2 ^ 32 in
      (int32_of-IsInt32 w (omega arith), exact_int (cjson.number_value j))
