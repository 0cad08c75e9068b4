-- ===== src/Value/Print.antt =====
-- src/value.c: `value_tostring`, with the conversions of `snprintf` that it uses ("%ld", and "%" PRIXPTR
-- after "0x"), on the bytes of the text.
pub mod Laws
use fluffy_vm.Prelude.{
  ℕ, zero, suc, ◌+◌, ◌-◌, ◌/◌, ◌%◌, Bool, List, [], ◌∷◌, ◌++◌, Option, none, some, ltb,
  if◌then◌else◌,
}
use fluffy_vm.Prelude.Int.{ℤ, pos, negsuc, to_signed}
use fluffy_vm.Prelude.Run.{Run, done, throw, crash, abort}
use fluffy_vm.Value.{
  Value, Str, Host, not_present, nil, double, long, string, table, closure, bool, coroutine,
  full_userdata, light_userdata, garbage_collectable_userdata,
}
use fluffy_vm.Value.Error.{Err, StaticString, static, out_of_memory, bool_true, typenames_nil}

unfoldable pub digit : ℕ → ℕ
digit d = if ltb d 10 then b'0' + d else b'A' + (d - 10)

-- The digits of a number in a base, before those of `rest`.
unfoldable pub digits : ℕ → ℕ → ℕ → List ℕ → List ℕ
unfolding digit
digits base zero n rest = rest
digits base (suc fuel) n rest =
    let more = digits base fuel (n / base) (digit (n % base) ∷ rest) in
    if ltb n base then digit n ∷ rest else more

-- "%ld"
unfoldable pub print_long : ℤ → List ℕ
unfolding digits
print_long (pos n) = digits 10 (suc n) n []
print_long (negsuc n) = b'-' ∷ digits 10 (suc (suc n)) (suc n) []

-- "%" PRIXPTR
unfoldable pub print_pointer : ℕ → List ℕ
unfolding digits
print_pointer p = b'0' ∷ b'x' ∷ digits 16 (suc p) p []

abbrev table_prefix : List ℕ
table_prefix = b't' ∷ b'a' ∷ b'b' ∷ b'l' ∷ b'e' ∷ b' ' ∷ []

abbrev function_prefix : List ℕ
function_prefix = b'f' ∷ b'u' ∷ b'n' ∷ b'c' ∷ b't' ∷ b'i' ∷ b'o' ∷ b'n' ∷ b' ' ∷ []

abbrev userdata_prefix : List ℕ
userdata_prefix = b'u' ∷ b's' ∷ b'e' ∷ b'r' ∷ b'd' ∷ b'a' ∷ b't' ∷ b'a' ∷ b' ' ∷ []

abbrev coroutine_prefix : List ℕ
coroutine_prefix = b'c' ∷ b'o' ∷ b'r' ∷ b'o' ∷ b'u' ∷ b't' ∷ b'i' ∷ b'n' ∷ b'e' ∷ b' ' ∷ []

module _ {D : Type 0} where
  -- A new string of these bytes at the address that the collector gives, when it has the memory.
  unfoldable pub allocated : Option ℕ → List ℕ → Run (Err D) (Value D)
  allocated none bytes = throw (static out_of_memory)
  allocated (some address) bytes =
      done (string (record { address = address; bytes = bytes; hash_code = 0 }))

  -- `text` gives the strings of FLUFFYVM_STATIC_STRINGS; both Booleans give the same one.
  unfoldable pub tostring :
      Host D → (StaticString → Str) → Option ℕ → Value D → Run (Err D) (Value D)
  unfolding allocated print_long print_pointer
  tostring host text memory (string s) = done (string s)
  tostring host text memory (long n) = allocated memory (print_long (to_signed n))
  tostring host text memory (double x) = allocated memory (host.print x)
  tostring host text memory (bool b) = done (string (text bool_true))
  tostring host text memory nil = done (string (text typenames_nil))
  tostring host text memory (table t) = allocated memory (table_prefix ++ print_pointer t)
  tostring host text memory (closure c) = allocated memory (function_prefix ++ print_pointer c)
  tostring host text memory (full_userdata u) =
      allocated memory (userdata_prefix ++ print_pointer u.user_data)
  tostring host text memory (light_userdata u) =
      allocated memory (userdata_prefix ++ print_pointer u.user_data)
  tostring host text memory (garbage_collectable_userdata u) =
      allocated memory (userdata_prefix ++ print_pointer u.user_object)
  tostring host text memory (coroutine c) = allocated memory (coroutine_prefix ++ print_pointer c)
  tostring host text memory not_present = crash abort
