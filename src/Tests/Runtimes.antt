-- ===== src/Tests/Runtimes.antt =====
-- The machine that is set up, its messages and its threads.
use mathlib.Core.List.{reverse}
use fluffy_vm.Prelude.{ℕ, ◌≡◌, refl, Bool, true, false, [], ◌∷◌, ◌++◌, some, map}
use fluffy_vm.Prelude.Run.{done}
use fluffy_vm.Value.{closure}
use fluffy_vm.Value.Kind.{get_object_ptr}
use fluffy_vm.Runtime.Components.{
  Component, stack, value, statics, hashtable, global_table, string_cache, caches, bytecode,
  bytecode_loader_json, closure, coroutine, compat_layer_lua54, cache_poller, started, failed,
  cleaned, fluffyvm_new, components, fluffyvm_new_lem,
}
use fluffy_vm.Runtime.Messages.{ErrMsg, IsHeld, set_errmsg, get_errmsg, set_errmsg_lem}

-- The string cache does not start.
abbrev starts_but_cache : Component → Bool
starts_but_cache string_cache = false
starts_but_cache _ = true

fluffyvm_new_lem_example : fluffyvm_new true starts_but_cache ≡ (
  started stack
      ∷ ((map (λ d. started d) (stack ∷ value ∷ statics ∷ hashtable ∷ global_table ∷ [])
            ++ failed string_cache ∷ [])
          ++ reverse (
              map
                (λ d. cleaned d)
                ((stack ∷ value ∷ statics ∷ hashtable ∷ global_table ∷ []) ++ string_cache ∷ []))),
  false,
)
unfolding components
fluffyvm_new_lem_example =
    fluffyvm_new_lem starts_but_cache (stack ∷ value ∷ statics ∷ hashtable ∷ global_table ∷ [])
      (caches ∷ bytecode ∷ bytecode_loader_json ∷ closure ∷ coroutine ∷ compat_layer_lua54
        ∷ cache_poller ∷ [])
      string_cache refl (refl, (refl, (refl, (refl, (refl, tt))))) refl

-- A message with the object 8, beside an object 3 that something else holds.
abbrev raised : ErrMsg ℕ
raised = record { has_init = true; message = some (closure 8); ref = some 8; roots = 8 ∷ 3 ∷ [] }

raised-IsHeld : IsHeld raised (3 ∷ [])
raised-IsHeld = record { absent = λ e. cc; roots = refl }

set_errmsg_lem_example :
    (e' : ErrMsg ℕ) × (set_errmsg raised (closure 5) ≡ done e')
    × IsHeld e' (3 ∷ [])
    × (get_object_ptr {D = ℕ} (closure 5) ≡ done e'.ref)
    × (get_errmsg e' ≡ closure 5)
set_errmsg_lem_example = set_errmsg_lem raised (3 ∷ []) (closure 5) raised-IsHeld refl tt
