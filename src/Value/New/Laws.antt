-- ===== src/Value/New/Laws.antt =====
-- src/value.c: what a new string holds, and when two light userdata are equal.
use fluffy_vm.Prelude.{
  ℕ, ◌+◌, ◌≢◌, ◌≡◌, refl, ◌⊎◌, sym, ap, ◌∙◌, arith, Bool, true, false, List, [], ◌∷◌, ◌++◌, none,
  some, ◌==◌, leb, length, take, All, length-append, take-append, Bool-cases, Option-cases, inl,
  inr,
}
use fluffy_vm.Prelude.Run.{done, throw, ◌>>=◌}
use fluffy_vm.Value.{Value, Host, Userdata, string, light_userdata}
use fluffy_vm.Value.Hash.{get_len}
use fluffy_vm.Value.Kind.{check_present}
use fluffy_vm.Value.Equal.{equals, payload_equal}
use fluffy_vm.Value.New.{
  Allocations, no_memory, copy_bytes, string_allocator, Cells, write_cell, new_full_userdata,
  new_light_userdata, new_string2, strlen, new_cstring, new_string2_constant,
  string_cache_create_string,
}

take-all : (xs : List ℕ) → take (length xs) xs ≡ xs
take-all [] = refl
take-all (x ∷ xs) = ap (λ r. x ∷ r) (take-all xs)

module _ {D : Type 0} where
  strlen_lem :
      (xs ys : List ℕ) → All (λ b. b ≢ 0) xs → strlen {D = D} (xs ++ 0 ∷ ys) ≡ done (length xs)
  unfolding strlen
  strlen_lem [] ys h = refl
  strlen_lem (x ∷ xs) ys h =
      let not_end : (x == 0) ≡ false = ground (arith, h.0) in
      rw (strlen_lem xs ys h.1, not_end) refl

  copied : (xs ys : List ℕ) (n : ℕ) → n ≡ length xs → copy_bytes {D = D} (xs ++ ys) n ≡ done xs
  unfolding copy_bytes
  copied xs ys n e =
      let inside : leb n (length (xs ++ ys)) ≡ true = ground (arith, length-append xs ys) in
      rw (inside, take-append xs ys n e) refl

  all_copied : (xs : List ℕ) (n : ℕ) → n ≡ length xs → copy_bytes {D = D} xs n ≡ done xs
  unfolding copy_bytes
  all_copied xs n e =
      let inside : leb n (length xs) ≡ true = ground arith in rw (inside, e, take-all xs) refl

  made :
      (m : Allocations D) (bytes copy : List ℕ) (n p o : ℕ)
      → m.malloc ≡ some p
      → m.object ≡ some o
      → copy_bytes {D = D} bytes n ≡ done copy
      → new_string2 m bytes n ≡ done (string (record { address = p; bytes = copy; hash_code = 0 }))
  unfolding new_string2 string_allocator
  made m bytes copy n p o e e' c = rw (e, e', c) refl

  not_made :
      (m : Allocations D) (bytes : List ℕ) (n : ℕ)
      → (m.malloc ≡ none) ⊎ (m.object ≡ none)
      → new_string2 m bytes n ≡ throw (no_memory m)
  unfolding new_string2 string_allocator
  not_made m bytes n (inl e) = rw e refl
  not_made m bytes n (inr e) = elim (Option-cases m.malloc) [
    | inl e' ↦ rw e' refl
    | inr (p, e') ↦ rw (e', e) refl
  ]

  cstring_made :
      (m : Allocations D) (xs ys : List ℕ)
      → All (λ b. b ≢ 0) xs
      → new_cstring m (xs ++ 0 ∷ ys) ≡ new_string2 m (xs ++ 0 ∷ ys) (length xs)
  unfolding new_cstring
  cstring_made m xs ys plain = rw (strlen_lem xs ys plain) refl

  -- A string that is made from an array and its length holds exactly those bytes, zeros among them, and has
  -- that length. One that is made from a C string holds the bytes before the first zero. Both are the same with
  -- the string cache, and with no memory for the string no value is made.
  pub new_string_lem :
      (m : Allocations D) (usage : ℕ → ℕ) (xs ys : List ℕ) (p o : ℕ)
      → All (λ b. b ≢ 0) xs
      → (m.malloc ≡ some p
          → m.object ≡ some o
          → (new_string2 m (xs ++ ys) (length xs + length ys)
              ≡ done (string (record { address = p; bytes = xs ++ ys; hash_code = 0 })))
            × ((new_string2 m (xs ++ ys) (length xs + length ys) >>= get_len usage)
                ≡ done (length xs + length ys))
            × (new_cstring m (xs ++ 0 ∷ ys)
                ≡ done (string (record { address = p; bytes = xs; hash_code = 0 }))))
        × ((cached : Bool)
            → new_string2_constant m cached (xs ++ ys) (length xs)
              ≡ new_string2 m (xs ++ ys) (length xs))
        × ((m.malloc ≡ none) ⊎ (m.object ≡ none)
            → new_cstring m (xs ++ 0 ∷ ys) ≡ throw (no_memory m))
  unfolding new_string2 new_string2_constant string_cache_create_string get_len
  new_string_lem m usage xs ys p o plain = (
    λ e e'.
        let whole =
          made m (xs ++ ys) (xs ++ ys) (length xs + length ys) p o e e'
            (all_copied (xs ++ ys) (length xs + length ys) (sym (length-append xs ys))) in
        (
          whole,
          rw whole (ap done (length-append xs ys)),
          cstring_made m xs ys plain
              ∙ made m (xs ++ 0 ∷ ys) xs (length xs) p o e e' (copied xs (0 ∷ ys) (length xs) refl),
        ),
    λ cached. elim (Bool-cases cached) [ inl e ↦ rw e refl | inr e ↦ rw e refl ],
    λ short. cstring_made m xs ys plain ∙ not_made m (xs ++ 0 ∷ ys) (length xs) short,
  )

  pub light :
      (m : Allocations D) (module_id type_id ptr p o a : ℕ) (cells : Cells)
      → m.malloc ≡ some p
      → m.object ≡ some o
      → m.object_data (some o) ≡ done a
      → (u : Userdata) × (u.user_data ≡ a)
        × (new_light_userdata m module_id type_id ptr cells
            ≡ done (light_userdata u, write_cell a ptr cells))
  unfolding new_light_userdata new_full_userdata
  light m module_id type_id ptr p o a cells e e' at =
      let u : Userdata = record {
        data_obj = o;
        user_data = a;
        user_object = m.unwritten;
        is_full = false;
        module_id = module_id;
        type_id = type_id;
      } in
      (u, refl, rw (e, e', at) refl)

module _ {D : Type 0} (host : Host D) where
  -- Two light userdata, whose pointers the collector's objects hold at `a` and `b`: they are equal where the two
  -- objects have the same memory, and not where the two pointers are equal.
  pub light_userdata_lem :
      (m m' : Allocations D) (module_id type_id ptr ptr' p p' o o' a b : ℕ) (cells : Cells)
      → (m.malloc ≡ some p) × (m.object ≡ some o) × (m.object_data (some o) ≡ done a)
      → (m'.malloc ≡ some p') × (m'.object ≡ some o') × (m'.object_data (some o') ≡ done b)
      → (v w : Value D) × (cells' cells'' : Cells) × (new_light_userdata m module_id type_id ptr
            cells
          ≡ done (v, cells'))
        × (new_light_userdata m' module_id type_id ptr' cells' ≡ done (w, cells''))
        × (equals host v w ≡ done (a == b))
        × (cells'' b ≡ ptr')
        × (a ≢ b → cells'' a ≡ ptr)
  unfolding equals check_present payload_equal
  light_userdata_lem m m' module_id type_id ptr ptr' p p' o o' a b cells (e, e', at) (f, f', at') =
      let (u, at_a, made_u) = light m module_id type_id ptr p o a cells e e' at in
      let cells' = write_cell a ptr cells in
      let (w, at_b, made_w) = light m' module_id type_id ptr' p' o' b cells' f f' at' in
      (
        light_userdata u,
        light_userdata w,
        cells',
        write_cell b ptr' cells',
        made_u,
        made_w,
        rw (at_a, at_b) refl,
        ground arith,
        λ differ. ground (arith, differ),
      )
