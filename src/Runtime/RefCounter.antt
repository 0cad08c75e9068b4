-- ===== src/Runtime/RefCounter.antt =====
-- src/ref_counter.c: a counter of holders, whose finalizer runs when the last of them lets go.
use fluffy_vm.Prelude.{
  ℕ, zero, suc, ◌+◌, ◌-◌, ◌%◌, ◌^◌, ◌<◌, ◌≡◌, refl, ap, ◌∙◌, arith, Bool, true, false, ◌&&◌, List,
  [], ◌∷◌, ◌++◌, ◌==◌, ltb, if◌then◌else◌, length, Option, none, some,
}
use fluffy_vm.Prelude.Run.{Run, done, crash, assert_failed, out_of_bounds, ◌>>=◌}

-- `struct ref_counter`; `counter` is the pattern of an `int`.
pub record RefCounter : Type 0 where
  pub counter : ℕ
  pub payload : ℕ

-- The counter's memory, until it is freed.
pub data Slot : Type 0 where
  live : RefCounter → Slot
  freed : Slot

unfoldable pub ref_counter_new : ℕ → Slot
ref_counter_new payload = live (record { counter = 1; payload = payload })

-- `prev > 0`
abbrev is_positive : ℕ → Bool
is_positive w = ltb 0 w && ltb w (2 ^ 31)

module _ {E : Type 0} where
  -- The atomic addition wraps around.
  unfoldable pub ref_counter_inc : Slot → Run E Slot
  ref_counter_inc freed = crash out_of_bounds
  ref_counter_inc (live r) =
      if is_positive r.counter
      then done (live (record r { counter = (r.counter + 1) % 2 ^ 32 }))
      else crash assert_failed

  -- With the data for which the finalizer ran.
  unfoldable pub ref_counter_dec : Slot → Run E (Slot × List ℕ)
  ref_counter_dec freed = crash out_of_bounds
  ref_counter_dec (live r) =
      if is_positive r.counter
      then (if r.counter == 1
          then done (freed, r.payload ∷ [])
          else done (live (record r { counter = (r.counter + (2 ^ 32 - 1)) % 2 ^ 32 }), []))
      else crash assert_failed

pub data RefOp : Type 0 where
  call_inc call_dec : RefOp

module _ {E : Type 0} where
  unfoldable pub ref_step : RefOp → Slot → Run E (Slot × List ℕ)
  unfolding ref_counter_inc ref_counter_dec
  ref_step call_inc s = do s' ← ref_counter_inc s; done (s', [])
  ref_step call_dec s = ref_counter_dec s

  -- The calls in their order, with all the data that was finalized.
  unfoldable pub ref_run : List RefOp → Slot → Run E (Slot × List ℕ)
  unfolding ref_step
  ref_run [] s = done (s, [])
  ref_run (op ∷ ops) s = do
    (s', finalized) ← ref_step op s
    (s'', more) ← ref_run ops s'
    done (s'', finalized ++ more)

-- Calls by holders alone: how many there are after the calls, from `n` at first. Where there are none left, nobody
-- may call.
unfoldable pub holders : ℕ → List RefOp → Option ℕ
holders n [] = some n
holders zero (op ∷ ops) = none
holders (suc n) (call_inc ∷ ops) = holders (suc (suc n)) ops
holders (suc n) (call_dec ∷ ops) = holders n ops

-- The memory for `n` holders, and what was finalized when there are `m` of the `n`.
abbrev pub slot_of : ℕ → ℕ → Slot
slot_of payload zero = freed
slot_of payload (suc n) = live (record { counter = suc n; payload = payload })

abbrev finalized_at : ℕ → ℕ → ℕ → List ℕ
finalized_at payload (suc n) zero = payload ∷ []
finalized_at payload n m = []

module _ {E : Type 0} where
  abbrev pub expected : ℕ → ℕ → Option ℕ → Run E (Slot × List ℕ)
  expected payload n none = crash out_of_bounds
  expected payload n (some m) = done (slot_of payload m, finalized_at payload n m)

  still_expected :
      (payload n k : ℕ) (o : Option ℕ)
      → (expected payload (suc n) o >>= λ r. done (r.0, [] ++ r.1)) ≡ expected payload (suc k) o
  still_expected payload n k none = refl
  still_expected payload n k (some zero) = refl
  still_expected payload n k (some (suc m)) = refl

  counted :
      (ops : List RefOp) (payload n : ℕ)
      → n + length ops < 2 ^ 31
      → ref_run {E = E} ops (slot_of payload n) ≡ expected payload n (holders n ops)
  unfolding ref_run ref_step ref_counter_inc ref_counter_dec holders
  counted [] payload zero h = refl
  counted [] payload (suc n) h = refl
  counted (call_inc ∷ ops) payload zero h = refl
  counted (call_dec ∷ ops) payload zero h = refl
  counted (call_inc ∷ ops) payload (suc n) h =
      let positive : is_positive (suc n) ≡ true = ground arith in
      let more : (suc n + 1) % 2 ^ 32 ≡ suc (suc n) = ground arith in
      rw (positive, more, counted ops payload (suc (suc n)) (omega arith))
        (still_expected payload (suc n) n (holders (suc (suc n)) ops))
  counted (call_dec ∷ []) payload (suc zero) h = refl
  counted (call_dec ∷ call_inc ∷ ops) payload (suc zero) h = refl
  counted (call_dec ∷ call_dec ∷ ops) payload (suc zero) h = refl
  counted (call_dec ∷ ops) payload (suc (suc n)) h =
      let positive : is_positive (suc (suc n)) ≡ true = ground arith in
      let many : (suc (suc n) == 1) ≡ false = ground arith in
      let less : (suc (suc n) + (2 ^ 32 - 1)) % 2 ^ 32 ≡ suc n = ground arith in
      rw (positive, many, less, counted ops payload (suc n) (omega arith))
        (still_expected payload n (suc n) (holders (suc n) ops))

  -- Any calls on a new counter, fewer than an `int` can count: while there are holders nothing is finalized and the
  -- counter is their number; with the call by which the last of them lets go its data is finalized, once, and
  -- the memory is freed; a call after that uses freed memory.
  pub ref_counter_lem :
      (ops : List RefOp) (payload : ℕ)
      → 1 + length ops < 2 ^ 31
      → ((m : ℕ)
          → holders 1 ops ≡ some (suc m)
          → ref_run {E = E} ops (ref_counter_new payload)
            ≡ done (live (record { counter = suc m; payload = payload }), []))
        × (holders 1 ops ≡ some 0
            → ref_run {E = E} ops (ref_counter_new payload) ≡ done (freed, payload ∷ []))
        × (holders 1 ops ≡ none
            → ref_run {E = E} ops (ref_counter_new payload) ≡ crash out_of_bounds)
  unfolding ref_counter_new
  ref_counter_lem ops payload h =
      let all = counted ops payload 1 h in
      (
        λ m e. all ∙ ap (expected payload 1) e,
        λ e. all ∙ ap (expected payload 1) e,
        λ e. all ∙ ap (expected payload 1) e,
      )
