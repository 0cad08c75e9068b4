-- ===== src/Util/Hex.antt =====
-- `util_hex2bin` of src/util/util.c. What `sscanf` reads with `%x` of one character or two is a parameter: none when it reads
-- nothing.
use fluffy_vm.Prelude.{
  ℕ, zero, suc, ◌*◌, ◌%◌, ◌<◌, ◌≡◌, refl, ap, ◌∙◌, arith, Bool, All, List, [], ◌∷◌, Option, none,
  some, ◌==◌, length,
}

module _ (scan : List ℕ → Option ℕ) where
  -- The bytes that are written, for a string less its terminator and a buffer of the given length.
  unfoldable pub hex_bytes : List ℕ → ℕ → List ℕ
  hex_bytes _ zero = []
  hex_bytes [] (suc n) = []
  hex_bytes (c ∷ []) (suc n) = elim (scan (c ∷ [])) [ none ↦ [] | some v ↦ v % 256 ∷ [] ]
  hex_bytes (c ∷ d ∷ ds) (suc n) =
      let rest = hex_bytes ds n in elim (scan (c ∷ d ∷ [])) [ none ↦ [] | some v ↦ v % 256 ∷ rest ]

  -- `i`, the number of bytes written, is compared with twice the number of bytes asked for.
  unfoldable pub util_hex2bin : List ℕ → ℕ → List ℕ × Bool
  unfolding hex_bytes
  util_hex2bin str n = let bytes = hex_bytes str n in (bytes, length bytes == n * 2)

  module _ (digits : ℕ → ℕ × ℕ) where
    abbrev in_hex : List ℕ → List ℕ
    in_hex [] = []
    in_hex (b ∷ bs) = (digits b).0 ∷ (digits b).1 ∷ in_hex bs

    module _ (reads : (b : ℕ) → b < 256 → scan ((digits b).0 ∷ (digits b).1 ∷ []) ≡ some b) where
      hex_bytes-in_hex :
          (bs : List ℕ) → All (λ b. b < 256) bs → hex_bytes (in_hex bs) (length bs) ≡ bs
      unfolding hex_bytes
      hex_bytes-in_hex [] h = refl
      hex_bytes-in_hex (b ∷ bs) h =
          rw (reads b h.0, hex_bytes-in_hex bs h.1) (ap (λ c. c ∷ bs) (omega (arith, h.0)))

      -- Bytes in hexadecimal are read back when `scan` reads two digits; but success is reported for no bytes
      -- at all only.
      util_hex2bin-in_hex :
          (bs : List ℕ)
          → All (λ b. b < 256) bs
          → util_hex2bin (in_hex bs) (length bs) ≡ (bs, length bs == 0)
      unfolding util_hex2bin
      util_hex2bin-in_hex bs h =
          ap (λ r. (r, length r == length bs * 2)) (hex_bytes-in_hex bs h)
          ∙ ap (λ t. (bs, t)) (doubled (length bs))
        where
          doubled : (n : ℕ) → (n == n * 2) ≡ (n == 0)
          doubled zero = refl
          doubled (suc n) = ground arith
