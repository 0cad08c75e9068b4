-- ===== src/Value/Equal/Laws.antt =====
-- What `value_equals` decides, and its agreement with `value_hash_code`.
use fluffy_vm.Prelude.{ℕ, Bool, true, List, [], ◌∷◌, ◌≡◌, ◌↔◌, refl, ◌⊎◌, ap, arith, ==_refl}
use fluffy_vm.Prelude.Run.{done}
use fluffy_vm.Value.{Value, Str, Host, double, string, garbage_collectable_userdata}
use fluffy_vm.Value.Kind.{IsPresent}
use fluffy_vm.Value.Hash.{hash_bytes, string_hash, hash_of, hash_code, IsCoherent}
use fluffy_vm.Value.Equal.{bytes_equal, bool_equal, string_equal, payload_equal, equals}

bytes_equal_refl : (xs : List ℕ) → bytes_equal xs xs ≡ true
unfolding bytes_equal
bytes_equal_refl [] = refl
bytes_equal_refl (x ∷ xs) = ground (arith, bytes_equal_refl xs)

bytes_equal_eq : (xs ys : List ℕ) → bytes_equal xs ys ≡ true → xs ≡ ys
unfolding bytes_equal
bytes_equal_eq [] [] h = refl
bytes_equal_eq [] (y ∷ ys) h = cc
bytes_equal_eq (x ∷ xs) [] h = cc
bytes_equal_eq (x ∷ xs) (y ∷ ys) h = ground (arith, bytes_equal_eq xs ys)

bool_equal_eq : (a b : Bool) → bool_equal a b ≡ true → a ≡ b
unfolding bool_equal
bool_equal_eq a b h = ground arith

module _ {D : Type 0} (host : Host D) where
  string_equal_eq : (s t : Str) → string_equal host s t ≡ true → s.bytes ≡ t.bytes
  unfolding string_equal
  string_equal_eq s t h = ground (arith, bytes_equal_eq s.bytes t.bytes)

  string_equal_of_bytes :
      (s t : Str)
      → IsCoherent host (string s)
      → IsCoherent host (string t)
      → s.bytes ≡ t.bytes
      → string_equal host s t ≡ true
  unfolding string_equal
  string_equal_of_bytes s t cs ct e = simp (cs, ct, e, ==_refl, bytes_equal_refl)

  -- Two strings with coherent caches are equal for `value_equals` exactly when their bytes are, the
  -- terminator aside: neither the cache nor the addresses matter.
  pub equals_strings_iff :
      (s t : Str)
      → IsCoherent host (string s)
      → IsCoherent host (string t)
      → (equals host (string s) (string t) ≡ done true) ↔ (s.bytes ≡ t.bytes)
  unfolding equals
  equals_strings_iff s t cs ct =
      (λ h. string_equal_eq s t (ground arith), λ e. ap done (string_equal_of_bytes s t cs ct e))

  -- The payloads for which equal values have equal bytes: not a double (0.0 equals -0.0), and not a
  -- garbage collectable userdata (its `data` field is not what equality reads).
  abbrev pub IsExact : Value D → Type 0
  IsExact (double x) = ⊥
  IsExact (garbage_collectable_userdata u) = ⊥
  IsExact _ = Unit

  string_hash_congr :
      (s t : Str) → string_equal host s t ≡ true → (string_hash host s).0 ≡ (string_hash host t).0
  unfolding string_equal
  string_hash_congr s t h = ground arith

  -- Equal payloads hash alike.
  pub hash_of_congr :
      (a b : Value D) → IsExact a → payload_equal host a b ≡ true → hash_of host a ≡ hash_of host b
  unfolding payload_equal hash_of bool_equal
  hash_of_congr (string s) (string t) x h = string_hash_congr s t h
  hash_of_congr (double d) b x h = elim x [ ]
  hash_of_congr (garbage_collectable_userdata u) b x h = elim x [ ]
  hash_of_congr _ _ x h = ground arith

  -- The contract between `value_equals` and `value_hash_code` that the hash table needs: equal values
  -- hash alike, cached hashes of strings included. Doubles and garbage collectable userdata are
  -- excepted.
  pub hash_code_congr :
      (a b : Value D)
      → IsExact a
      → equals host a b ≡ done true
      → hash_code host a ≡ hash_code host b
  unfolding equals hash_code
  hash_code_congr a b x h = ground (arith, hash_of_congr a b x)

  -- A string's hash does not depend on its cache, and filling the cache keeps it coherent.
  pub string_hash-IsCoherent :
      (s : Str)
      → (s.hash_code ≡ 0) ⊎ (s.hash_code ≡ hash_bytes host s.bytes)
      → ((string_hash host s).0 ≡ hash_bytes host s.bytes)
        × IsCoherent host (string (string_hash host s).1)
        × ((string_hash host s).1.bytes ≡ s.bytes)
  unfolding string_hash
  string_hash-IsCoherent s h = ground arith

  -- The values that the hash table can take as keys and find again.
  abbrev pub IsKey : Value D → Type 0
  IsKey v = IsPresent v × IsExact v × IsCoherent host v

  pub string_equal_iff :
      (s t : Str)
      → IsCoherent host (string s)
      → IsCoherent host (string t)
      → (string_equal host s t ≡ true) ↔ (s.bytes ≡ t.bytes)
  string_equal_iff s t cs ct = (string_equal_eq s t, string_equal_of_bytes s t cs ct)
