-- ===== src/Runtime/Setup.antt =====
-- src/fluffyvm.c: the components that it sets up itself: the static strings, the global table, the string cache and the
-- thread that polls it; and src/string_cache.c: `string_cache_init` and `string_cache_new`.
use fluffy_vm.Prelude.{
  ℕ, suc, ◌≡◌, ◌≢◌, refl, ap, ◌∙◌, arith, Bool, true, false, List, [], ◌∷◌, ◌++◌, map, Option, none,
  some, ◌==◌, if◌then◌else◌, All, ==_refl,
}
use fluffy_vm.Prelude.Int.{pos}
use fluffy_vm.Prelude.Run.{Run, done, throw, crash, abort, ◌>>=◌}
use fluffy_vm.Value.{Value, Host}
use fluffy_vm.Value.Error.{StaticString, out_of_memory}
use fluffy_vm.Hashtable.{Alloc}
use fluffy_vm.Interpreter.Machine.{Vm, Stop, raised, exhausted, lift}
use fluffy_vm.Runtime.Messages.{Global, set_global, remove_ref}
use fluffy_vm.Runtime.RefCounter.{Slot, ref_counter_new}
use fluffy_vm.Api.Push.{new_table}

-- `staticStrings`: the reference of each string in the order of FLUFFYVM_STATIC_STRINGS, NULL where it is not made;
-- and the machine's static root, the newest object first.
unfoldable pub statics_init : List (Option ℕ) → List ℕ → List (Option ℕ) × List ℕ × Bool
statics_init [] roots = ([], roots, true)
statics_init (none ∷ strings) roots = (none ∷ map (λ s. none) strings, roots, false)
statics_init (some o ∷ strings) roots =
    let (refs, roots', all) = statics_init strings (o ∷ roots) in (some o ∷ refs, roots', all)

unfoldable pub statics_cleanup : List (Option ℕ) → List ℕ → List ℕ
unfolding remove_ref
statics_cleanup [] roots = roots
statics_cleanup (none ∷ refs) roots = statics_cleanup refs roots
statics_cleanup (some o ∷ refs) roots = statics_cleanup refs (remove_ref o roots)

module _ {D : Type 0} (host : Host D) where
  table_set_up : Global D → Run (Stop D) (Vm D × Value D) → Run (Stop D) (Vm D × Global D × Bool)
  unfolding set_global
  table_set_up g (done (vm, t)) = do g' ← lift vm (set_global g t); done (vm, g', true)
  table_set_up g (throw (raised e vm)) = done (vm, g, false)
  table_set_up g (throw exhausted) = throw exhausted
  table_set_up g (crash x) = crash x

  -- `global_table_init`, with a capacity of 16.
  unfoldable pub global_table_init :
      Bool → Alloc → Vm D → Global D → D → Run (Stop D) (Vm D × Global D × Bool)
  unfolding table_set_up new_table
  global_table_init object_ok alloc vm g load_factor =
      table_set_up g (new_table host object_ok alloc vm load_factor (pos 16))

-- `string_cache_init`, by the results of `malloc` and of the two descriptors.
unfoldable pub string_cache_init : Bool → Bool → Bool → Bool
string_cache_init malloc_ok cache_ok entry_ok =
    if malloc_ok then (if cache_ok then entry_ok else false) else false

-- `string_cache_new`: the counter of the data that the cache shares, which the cache's finalizer lets go of.
unfoldable pub string_cache_new : Bool → ℕ → Run StaticString Slot
unfolding ref_counter_new
string_cache_new object_ok data_address =
    if object_ok then done (ref_counter_new data_address) else throw out_of_memory

-- `caches_init`: the cache, which the static root keeps, and whether there is one.
unfoldable pub caches_init : Option ℕ → List ℕ → Option ℕ × List ℕ × Bool
caches_init none roots = (none, roots, false)
caches_init (some o) roots = (some o, o ∷ roots, true)

-- `cache_poller_init`: the result, which is noted in `hasCachePollerStarted`; and whether `cache_poller_cleanup` joins the thread.
unfoldable pub cache_poller_init : Bool → Bool × Bool
cache_poller_init started = (started, started)

unfoldable pub cache_poller_cleanup : Bool → Bool
cache_poller_cleanup started = started

-- The poller's rounds: `shuttingDown` as it reads it at each.
unfoldable pub poller_rounds : List Bool → ℕ
poller_rounds [] = 0
poller_rounds (true ∷ reads) = 0
poller_rounds (false ∷ reads) = suc (poller_rounds reads)

-- `validateThisThread`, and `fluffyvm_get_thread_id` of the number that the thread stores.
unfoldable pub get_thread_id : {E : Type 0} → Option ℕ → ℕ → Run E ℕ
get_thread_id none id = crash abort
get_thread_id (some root) id = done id

-- The objects of the strings are different from each other.
abbrev pub Fresh : List (Option ℕ) → Type 0
Fresh [] = Unit
Fresh (none ∷ strings) = Fresh strings
Fresh (some o ∷ strings) = All (λ p. p ≢ some o) strings × Fresh strings

remove_ref-front :
    (o : ℕ) (front roots : List ℕ)
    → All (λ p. p ≢ o) front
    → remove_ref o (front ++ o ∷ roots) ≡ front ++ roots
unfolding remove_ref
remove_ref-front o [] roots h = rw (==_refl o) refl
remove_ref-front o (p ∷ front) roots h =
    let other : (p == o) ≡ false = ground (arith, h.0) in
    rw other (ap (λ xs. p ∷ xs) (remove_ref-front o front roots h.1))

-- The references do not depend on what the root held.
refs_same :
    (strings : List (Option ℕ)) (roots roots' : List ℕ)
    → (statics_init strings roots).0 ≡ (statics_init strings roots').0
unfolding statics_init
refs_same [] roots roots' = refl
refs_same (none ∷ strings) roots roots' = refl
refs_same (some o ∷ strings) roots roots' =
    ap (λ refs. some o ∷ refs) (refs_same strings (o ∷ roots) (o ∷ roots'))

-- Taking out an object that was there before the strings.
roots_without :
    (strings : List (Option ℕ)) (o : ℕ) (front roots : List ℕ)
    → All (λ p. p ≢ some o) strings
    → All (λ p. p ≢ o) front
    → remove_ref o (statics_init strings (front ++ o ∷ roots)).1
      ≡ (statics_init strings (front ++ roots)).1
unfolding statics_init
roots_without [] o front roots h k = remove_ref-front o front roots k
roots_without (none ∷ strings) o front roots h k = remove_ref-front o front roots k
roots_without (some p ∷ strings) o front roots h k =
    roots_without strings o (p ∷ front) roots h.1 ((λ e. h.0 (ap (λ q. some q) e)), k)

cleanup_none :
    (strings : List (Option ℕ)) (roots : List ℕ)
    → statics_cleanup (map (λ s. none) strings) roots ≡ roots
unfolding statics_cleanup
cleanup_none [] roots = refl
cleanup_none (s ∷ strings) roots = cleanup_none strings roots

-- `statics_init`, whether it makes all the strings or stops at one that there is no memory for, and `statics_cleanup` after it:
-- the static root refers to what it referred to before, as often, when each string has an object of its
-- own.
pub statics_init-statics_cleanup :
    (strings : List (Option ℕ)) (roots : List ℕ)
    → Fresh strings
    → statics_cleanup (statics_init strings roots).0 (statics_init strings roots).1 ≡ roots
unfolding statics_init statics_cleanup
statics_init-statics_cleanup [] roots h = refl
statics_init-statics_cleanup (none ∷ strings) roots h = cleanup_none strings roots
statics_init-statics_cleanup (some o ∷ strings) roots h =
    ap (statics_cleanup (statics_init strings (o ∷ roots)).0)
      (roots_without strings o [] roots h.0 tt)
    ∙ ap (λ refs. statics_cleanup refs (statics_init strings roots).1)
        (refs_same strings (o ∷ roots) roots)
    ∙ statics_init-statics_cleanup strings roots h.1
