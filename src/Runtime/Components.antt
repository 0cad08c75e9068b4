-- ===== src/Runtime/Components.antt =====
-- src/fluffyvm.c: `fluffyvm_new`, `commonCleanup` and `fluffyvm_free`, as the calls that they make of the components of
-- COMPONENTS. Whether a component's `init` succeeds, and whether the bootstrap of the thread does, are
-- parameters.
use mathlib.Core.List.{reverse, reverse-cons}
use fluffy_vm.Prelude.{
  ℕ, zero, suc, ◌+◌, ◌≤◌, ◌≡◌, refl, sym, ap, ◌∙◌, arith, Bool, true, false, not, List, [], ◌∷◌,
  ◌++◌, map, All, if◌then◌else◌, ltb, length, take,
}
use fluffy_vm.Prelude.Run.{Run, done, crash, abort}

pub data Component : Type 0 where
  stack value statics hashtable global_table string_cache caches bytecode : Component
  bytecode_loader_json closure coroutine compat_layer_lua54 cache_poller : Component

unfoldable pub components : List Component
components =
    stack ∷ value ∷ statics ∷ hashtable ∷ global_table ∷ string_cache ∷ caches ∷ bytecode
    ∷ bytecode_loader_json ∷ closure ∷ coroutine ∷ compat_layer_lua54 ∷ cache_poller ∷ []

-- A call of a component's `init` that succeeded or failed, or of its `cleanup`.
pub data Event : Type 0 where
  started failed cleaned : Component → Event

-- The loop of `commonCleanup`: `calls[initCounts - 1]` down to `calls[0]`.
unfoldable pub cleanups : List Component → ℕ → List Event
cleanups [] n = []
cleanups (c ∷ cs) zero = []
cleanups (c ∷ cs) (suc n) = cleanups cs n ++ cleaned c ∷ []

-- The `init` calls, with the count before each of them, until one fails: the calls, the count then, and
-- whether all succeeded.
unfoldable pub starts : (Component → Bool) → List Component → ℕ → List Event × ℕ × Bool
starts ok [] count = ([], count, true)
starts ok (c ∷ cs) count =
    let (events, count', all) = starts ok cs (suc count) in
    if ok c then (started c ∷ events, count', all) else (failed c ∷ [], suc count, false)

-- `fluffyvm_new`: the calls, and whether the machine is returned. `stack_init` is called once more, before
-- all; when the bootstrap fails, nothing is counted.
unfoldable pub fluffyvm_new : Bool → (Component → Bool) → List Event × Bool
unfolding starts cleanups
fluffyvm_new bootstrap_ok ok =
    let (events, count, all) = starts ok components 0 in
    if not bootstrap_ok
    then (started stack ∷ [], false)
    else if all
    then (started stack ∷ events, true)
    else (started stack ∷ (events ++ cleanups components count), false)

-- `fluffyvm_free`. Two threads are counted: this one, and the cleaner of the string cache.
unfoldable pub fluffyvm_free : {E : Type 0} → ℕ → Run E (List Event)
unfolding cleanups
fluffyvm_free managed_threads =
    if ltb 2 managed_threads then crash abort else done (cleanups components (length components))

cleanups-reverse :
    (cs : List Component) (n : ℕ) → cleanups cs n ≡ reverse (map (λ c. cleaned c) (take n cs))
unfolding cleanups
cleanups-reverse [] zero = refl
cleanups-reverse [] (suc n) = refl
cleanups-reverse (c ∷ cs) zero = refl
cleanups-reverse (c ∷ cs) (suc n) =
    ap (λ (es : List Event). es ++ cleaned c ∷ []) (cleanups-reverse cs n)
    ∙ sym (reverse-cons (cleaned c) (map (λ d. cleaned d) (take n cs)))

starts_every :
    (ok : Component → Bool) (cs : List Component) (n : ℕ)
    → All (λ c. ok c ≡ true) cs
    → starts ok cs n ≡ (map (λ c. started c) cs, n + length cs, true)
unfolding starts
starts_every ok [] n h = ap (λ (k : ℕ). ([], k, true)) (omega arith)
starts_every ok (c ∷ cs) n h =
    rw (h.0, starts_every ok cs (suc n) h.1)
      (ap (λ (k : ℕ). (started c ∷ map (λ d. started d) cs, k, true)) (omega arith))

starts_until :
    (ok : Component → Bool) (before after : List Component) (c : Component) (n : ℕ)
    → All (λ d. ok d ≡ true) before
    → ok c ≡ false
    → starts ok (before ++ c ∷ after) n
      ≡ (map (λ d. started d) before ++ failed c ∷ [], n + length before + 1, false)
unfolding starts
starts_until ok [] after c n h bad =
    rw bad (ap (λ (k : ℕ). (failed c ∷ [], k, false)) (omega arith))
starts_until ok (d ∷ before) after c n h bad =
    rw (h.0, starts_until ok before after c (suc n) h.1 bad)
      (ap (λ (k : ℕ). (started d ∷ map (λ e. started e) before ++ failed c ∷ [], k, false))
        (omega arith))

take_through :
    (before after : List Component) (c : Component)
    → take (0 + length before + 1) (before ++ c ∷ after) ≡ before ++ c ∷ []
take_through [] after c = refl
take_through (d ∷ before) after c =
    let next : 0 + length (d ∷ before) + 1 ≡ suc (0 + length before + 1) = omega arith in
    ap (λ (k : ℕ). take k (d ∷ before ++ c ∷ after)) next
    ∙ ap (λ (r : List Component). d ∷ r) (take_through before after c)

take_all : (cs : List Component) → take (length cs) cs ≡ cs
take_all [] = refl
take_all (c ∷ cs) = ap (λ (r : List Component). c ∷ r) (take_all cs)

-- `fluffyvm_new` after the bootstrap, when `c` is the first component that does not start: nothing behind it is
-- called; the components before it and `c` itself are cleaned up, each once and in the reverse order; and
-- no machine is returned.
pub fluffyvm_new_lem :
    (ok : Component → Bool) (before after : List Component) (c : Component)
    → components ≡ before ++ c ∷ after
    → All (λ d. ok d ≡ true) before
    → ok c ≡ false
    → fluffyvm_new true ok ≡ (
      started stack
          ∷ ((map (λ d. started d) before ++ failed c ∷ [])
              ++ reverse (map (λ d. cleaned d) (before ++ c ∷ []))),
      false,
    )
unfolding fluffyvm_new
fluffyvm_new_lem ok before after c parts all bad =
    let begun = ap (λ cs. starts ok cs 0) parts ∙ starts_until ok before after c 0 all bad in
    let ended : cleanups components (0 + length before + 1)
        ≡ reverse (map (λ d. cleaned d) (before ++ c ∷ [])) =
      cleanups-reverse components (0 + length before + 1)
      ∙ ap (λ cs. reverse (map (λ d. cleaned d) (take (0 + length before + 1) cs))) parts
      ∙ ap (λ cs. reverse (map (λ d. cleaned d) cs)) (take_through before after c) in
    rw (begun, ended) refl

-- When every component starts, the machine is returned, and `fluffyvm_free` cleans up all of them in the reverse
-- order.
fluffyvm_new-fluffyvm_free :
    (ok : Component → Bool) (threads : ℕ)
    → All (λ c. ok c ≡ true) components
    → threads ≤ 2
    → (fluffyvm_new true ok ≡ (started stack ∷ map (λ c. started c) components, true))
      × (fluffyvm_free {E = Unit {0}} threads ≡ done (reverse (map (λ c. cleaned c) components)))
unfolding fluffyvm_new fluffyvm_free
fluffyvm_new-fluffyvm_free ok threads all few =
    let enough : ltb 2 threads ≡ false = ground arith in
    let whole =
      cleanups-reverse components (length components)
      ∙ ap (λ cs. reverse (map (λ d. cleaned d) cs)) (take_all components) in
    (rw (starts_every ok components 0 all) refl, rw (enough, whole) refl)
