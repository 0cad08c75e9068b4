-- ===== src/Value/Hash.antt =====
-- src/value.c: `value_hash_code` and `value_get_len`.
use fluffy_vm.Prelude.{ℕ, Bool, true, false, List, [], ◌∷◌, ◌==◌, if◌then◌else◌, length, ◌-◌, ◌≡◌}
use fluffy_vm.Prelude.Int.{word}
use fluffy_vm.Prelude.Run.{Run, done, ◌>>◌}
use fluffy_vm.Hashing.{hash_default}
use fluffy_vm.Value.{
  Value, Str, Host, le_bytes, not_present, nil, double, long, string, table, closure, bool,
  coroutine, full_userdata, light_userdata, garbage_collectable_userdata,
}
use fluffy_vm.Value.Error.{Err}
use fluffy_vm.Value.Kind.{check_present}

abbrev bool_bytes : Bool → List ℕ
bool_bytes true = 1 ∷ []
bool_bytes false = 0 ∷ []

module _ {D : Type 0} (host : Host D) where
  abbrev pub hash_bytes : List ℕ → ℕ
  hash_bytes bytes = hash_default host.xxh64 bytes

  -- The hash of a string, and the string with its cache filled.
  unfoldable pub string_hash : Str → ℕ × Str
  string_hash s =
      if s.hash_code == 0
      then (hash_bytes s.bytes, record s { hash_code = hash_bytes s.bytes })
      else (s.hash_code, s)

  -- The `switch` of `value_hash_code`; its last case is not reached.
  unfoldable pub hash_of : Value D → ℕ
  unfolding string_hash
  hash_of (string s) = (string_hash s).0
  hash_of (long n) = hash_bytes (le_bytes 8 n)
  hash_of (double d) = hash_bytes (le_bytes 8 (host.bits d))
  hash_of (table t) = hash_bytes (le_bytes 8 t)
  hash_of (closure c) = hash_bytes (le_bytes 8 c)
  hash_of (full_userdata u) = hash_bytes (le_bytes 8 u.user_data)
  hash_of (light_userdata u) = hash_bytes (le_bytes 8 u.user_data)
  hash_of (garbage_collectable_userdata u) = hash_bytes (le_bytes 8 u.user_data)
  hash_of (bool b) = hash_bytes (bool_bytes b)
  hash_of (coroutine c) = hash_bytes (le_bytes 8 c)
  hash_of nil = 0
  hash_of not_present = 0

  -- The hash; the cache that it fills in a string is that of `string_hash`.
  unfoldable pub hash_code : Value D → Run (Err D) ℕ
  unfolding check_present hash_of
  hash_code v = do check_present v; done (hash_of v)

  -- A cached hash is the hash of the bytes.
  abbrev pub IsCoherent : Value D → Type 0
  IsCoherent (string s) = (string_hash s).0 ≡ hash_bytes s.bytes
  IsCoherent _ = Unit

module _ {D : Type 0} where
  abbrev len_of : (ℕ → ℕ) → Value D → ℕ
  len_of usage (string s) = length s.bytes
  len_of usage (table t) = usage t
  len_of usage _ = word - 1

  -- `usage` gives the field of the table with this number. The default is `(size_t) -1`.
  unfoldable pub get_len : (ℕ → ℕ) → Value D → Run (Err D) ℕ
  unfolding check_present
  get_len usage v = do check_present v; done (len_of usage v)
