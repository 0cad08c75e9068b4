-- ===== src/Value/Equal.antt =====
-- src/value.c: `value_equals`, `value_equals_cstring` and `value_is_equal`.
pub mod Laws
use fluffy_vm.Prelude.{ℕ, Bool, true, false, List, [], ◌∷◌, ◌&&◌, ◌==◌, if◌then◌else◌, length}
use fluffy_vm.Prelude.Run.{Run, done, ◌>>=◌, ◌>>◌}
use fluffy_vm.Value.{
  Value, Str, Host, not_present, nil, double, long, string, table, closure, bool, coroutine,
  full_userdata, light_userdata, garbage_collectable_userdata,
}
use fluffy_vm.Value.Error.{Err}
use fluffy_vm.Value.Kind.{check_present}
use fluffy_vm.Value.Hash.{hash_bytes, string_hash}

-- `memcmp(a, b, n) == 0` for arrays of `n` bytes each
unfoldable pub bytes_equal : List ℕ → List ℕ → Bool
bytes_equal [] [] = true
bytes_equal (a ∷ as_) (b ∷ bs) = a == b && bytes_equal as_ bs
bytes_equal _ _ = false

unfoldable pub bool_equal : Bool → Bool → Bool
bool_equal true b = b
bool_equal false true = false
bool_equal false false = true

module _ {D : Type 0} (host : Host D) where
  -- lengths first, then hashes, then the bytes
  unfoldable pub string_equal : Str → Str → Bool
  unfolding bytes_equal
  string_equal s t =
      if length s.bytes == length t.bytes
      then (if (string_hash host s).0 == (string_hash host t).0
          then bytes_equal s.bytes t.bytes
          else false)
      else false

  unfoldable pub payload_equal : Value D → Value D → Bool
  unfolding string_equal string_hash bool_equal
  payload_equal (string s) (string t) = string_equal s t
  payload_equal (table s) (table t) = s == t
  payload_equal (closure s) (closure t) = s == t
  payload_equal (long m) (long n) = m == n
  payload_equal (double x) (double y) = host.equal x y
  payload_equal (full_userdata u) (full_userdata w) = u.user_data == w.user_data
  payload_equal (light_userdata u) (light_userdata w) = u.user_data == w.user_data
  payload_equal (garbage_collectable_userdata u) (garbage_collectable_userdata w) =
      u.user_object == w.user_object
  payload_equal (bool a) (bool b) = bool_equal a b
  payload_equal (coroutine s) (coroutine t) = s == t
  payload_equal nil nil = true
  payload_equal _ _ = false

  unfoldable pub equals : Value D → Value D → Run (Err D) Bool
  unfolding check_present payload_equal
  equals a b = do check_present a; check_present b; done (payload_equal a b)

  cstring_equal : Value D → List ℕ → Bool
  unfolding bytes_equal string_hash
  cstring_equal (string s) str =
      if length s.bytes == length str
      then (if (string_hash host s).0 == hash_bytes host str
          then bytes_equal str s.bytes
          else false)
      else false
  cstring_equal _ str = false

  unfoldable pub equals_cstring : Value D → List ℕ → Run (Err D) Bool
  unfolding check_present cstring_equal
  equals_cstring v str = do check_present v; done (cstring_equal v str)

-- `value_comparison_result_t`
pub data Comparison : Type 0 where
  inapplicable cmp_false cmp_true : Comparison

abbrev pub comparison_of : Bool → Comparison
comparison_of true = cmp_true
comparison_of false = cmp_false

module _ {D : Type 0} (host : Host D) where
  unfoldable pub is_equal : Value D → Value D → Run (Err D) Comparison
  unfolding equals
  is_equal a b = do e ← equals host a b; done (comparison_of e)
