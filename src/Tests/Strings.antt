-- ===== src/Tests/Strings.antt =====
-- Strings and light userdata that are made at concrete addresses.
use fluffy_vm.Prelude.{ℕ, ◌≡◌, ◌≢◌, refl, arith, true, false, [], ◌∷◌, some}
use fluffy_vm.Prelude.Run.{done, ◌>>=◌}
use fluffy_vm.Value.{Value, string}
use fluffy_vm.Value.Hash.{get_len}
use fluffy_vm.Value.Equal.{equals}
use fluffy_vm.Value.New.{Allocations, Cells, new_string2, new_cstring, new_light_userdata}
use fluffy_vm.Value.New.Laws.{new_string_lem, light_userdata_lem}
use fluffy_vm.Tests.Machine.{machine}

-- The object 4, whose memory is at `a`.
abbrev memory : ℕ → Allocations ℕ
memory a = record {
  malloc = some 3;
  unwritten = 0;
  object = some 4;
  object_data = λ o. done a;
  statics_ready = true;
}

new_string_lem_example :
    (new_string2 (memory 600) (104 ∷ 105 ∷ 0 ∷ []) 3
      ≡ done (string (record { address = 3; bytes = 104 ∷ 105 ∷ 0 ∷ []; hash_code = 0 })))
    × ((new_string2 (memory 600) (104 ∷ 105 ∷ 0 ∷ []) 3 >>= get_len (λ t. 0)) ≡ done 3)
    × (new_cstring (memory 600) (104 ∷ 105 ∷ 0 ∷ 0 ∷ [])
        ≡ done (string (record { address = 3; bytes = 104 ∷ 105 ∷ []; hash_code = 0 })))
new_string_lem_example =
    (new_string_lem (memory 600) (λ t. 0) (104 ∷ 105 ∷ []) (0 ∷ []) 3 4
        ((λ e. omega (arith, e)), ((λ e. omega (arith, e)), tt))).0
      refl refl

-- The same pointer, 700, twice.
light_userdata_lem_example :
    (v w : Value ℕ) × (cells' cells'' : Cells) × (new_light_userdata (memory 600) 2 1 700 (λ a. 77)
      ≡ done (v, cells'))
    × (new_light_userdata (memory 608) 2 1 700 cells' ≡ done (w, cells''))
    × (equals machine v w ≡ done false)
    × (cells'' 608 ≡ 700)
    × (◌≢◌ {A = ℕ} 600 608 → cells'' 600 ≡ 700)
light_userdata_lem_example =
    light_userdata_lem machine (memory 600) (memory 608) 2 1 700 700 3 3 4 4 600 608 (λ a. 77)
      (refl, refl, refl) (refl, refl, refl)
