-- ===== src/Tests/Utilities.antt =====
-- Counters, loops and static strings at concrete inputs.
use fluffy_vm.Prelude.{
  ℕ, ◌+◌, ◌≡◌, refl, arith, Bool, true, false, List, [], ◌∷◌, Option, some, none, ltb, All,
}
use fluffy_vm.Prelude.Run.{done}
use fluffy_vm.Runtime.RefCounter.{
  ref_counter_new, ref_run, ref_counter_lem, holders, call_inc, call_dec, freed, RefOp,
}
use fluffy_vm.Runtime.Setup.{statics_init, statics_cleanup, statics_init-statics_cleanup}
use fluffy_vm.Util.Foreach.{
  foreach_ok, Phase, asking, holding, looking, leaving, stopped, Work, Working, begins, goes_on,
  parallel_start, takes, accepted, continues, finds_none, leaves, status_of,
}
use fluffy_vm.Util.Foreach.Parallel.{foreach_parallel_do_lem, count, held_count, all_accepted}

abbrev calls : List RefOp
calls = call_inc ∷ call_dec ∷ call_dec ∷ []

all_gone : holders 1 calls ≡ some 0
unfolding holders
all_gone = refl

ref_counter_lem_example : ref_run {E = ℕ} calls (ref_counter_new 5) ≡ done (freed, 5 ∷ [])
ref_counter_lem_example = (ref_counter_lem calls 5 (omega arith)).1 all_gone

-- The second of three strings has no memory.
statics_init-statics_cleanup_example :
    statics_cleanup
      (statics_init (some 8 ∷ none ∷ some 9 ∷ []) (3 ∷ [])).0
      (statics_init (some 8 ∷ none ∷ some 9 ∷ []) (3 ∷ [])).1
    ≡ 3 ∷ []
statics_init-statics_cleanup_example =
    statics_init-statics_cleanup (some 8 ∷ none ∷ some 9 ∷ []) (3 ∷ [])
      (((λ e. cc), ((λ e. differ e), tt)), (tt, tt))
  where
    differ : ◌≡◌ {A = Option ℕ} (some 9) (some 8) → ⊥
    differ e = let same : ◌≡◌ {A = ℕ} 9 8 = cc e in omega (arith, same)

abbrev below_six : ℕ → Bool
below_six v = ltb v 6

abbrev work : List ℕ → List ℕ → Phase → Bool → Work
work left consumed p stop = record {
  left = left;
  consumed = consumed;
  workers = p ∷ [];
  must_stop = stop;
  failed = false;
}

-- One thread takes the one value, finds no other, and ends.
one_thread : Working below_six (parallel_start (4 ∷ []) 1) (work [] (4 ∷ []) stopped true)
unfolding parallel_start
one_thread =
    goes_on (work [] (4 ∷ []) leaving false) _
      (goes_on (work [] (4 ∷ []) asking false) _
        (goes_on (work [] (4 ∷ []) looking false) _
          (goes_on (work [] [] (holding 4) false) _
            (goes_on (work (4 ∷ []) [] asking false) _ (begins _ refl)
              (takes [] [] 4 [] _ refl refl refl))
            (accepted [] [] 4 _ refl refl refl))
          (continues [] [] _ refl refl refl))
        (finds_none [] [] _ refl refl refl))
      (leaves [] [] _ refl refl)

foreach_parallel_do_lem_example :
    ((x : ℕ) → count x (4 ∷ []) ≡ count x [] + (count x (4 ∷ []) + held_count x (stopped ∷ [])))
    × (All (λ p. p ≡ stopped) (stopped ∷ [])
        → (all_accepted below_six (4 ∷ []) ≡ true
            → status_of (work [] (4 ∷ []) stopped true) ≡ foreach_ok)
          × (status_of (work [] (4 ∷ []) stopped true) ≡ foreach_ok
              → (all_accepted below_six (4 ∷ []) ≡ true)
                × ((x : ℕ) → count x (4 ∷ []) ≡ count x (4 ∷ []))))
foreach_parallel_do_lem_example =
    foreach_parallel_do_lem below_six (4 ∷ []) 0 (work [] (4 ∷ []) stopped true) one_thread
