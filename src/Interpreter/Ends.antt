-- ===== src/Interpreter/Ends.antt =====
-- Operations of src/interpreter.c that do not call end: they are not out of fuel, whatever they return.
use fluffy_vm.Prelude.{ℕ, ◌+◌, ◌<◌, arith, Option, none, some, get_elem?, inl, inr, Option-cases}
use fluffy_vm.Prelude.Run.{Run, done, throw, crash, ◌>>=◌}
use fluffy_vm.Value.{Value, Host, not_present, table}
use fluffy_vm.Value.Error.{Err}
use fluffy_vm.Value.Kind.{typename}
use fluffy_vm.Hashtable.{Table, Failure}
use fluffy_vm.Hashtable.Keys.{hashtable_get, hashtable_set}
use fluffy_vm.Frame.{Frame}
use fluffy_vm.Interpreter.Decode.{increment_count, increment_count-eq-one, Opcode}
use fluffy_vm.Interpreter.Machine.{Proto, TableObject, Vm, Stop, raised, exhausted, Outside, lift}
use fluffy_vm.Interpreter.Closures.{closure_new, or_null}
use fluffy_vm.Interpreter.Ops.{
  Next, continue, returned, table_at, found, written, table_get, table_set, load_prototype,
}
use fluffy_vm.Interpreter.Exec.{next_with}

module _ {D : Type 0} where
  -- Not out of fuel.
  abbrev pub Ends : {A : Type 0} → Run (Stop D) A → Type 0
  Ends (done a) = Unit
  Ends (throw (raised e vm)) = Unit
  Ends (throw exhausted) = ⊥
  Ends (crash x) = Unit

  -- Not out of fuel, and behind `pc`.
  abbrev pub IsProgress : ℕ → Run (Stop D) (Next D) → Type 0
  IsProgress pc (done (continue vm f k)) = pc < k
  IsProgress pc (done (returned vm f count)) = Unit
  IsProgress pc (throw (raised e vm)) = Unit
  IsProgress pc (throw exhausted) = ⊥
  IsProgress pc (crash x) = Unit

  pub lift-Ends : {A : Type 0} (vm : Vm D) (m : Run (Err D) A) → Ends (lift vm m)
  lift-Ends vm (done a) = tt
  lift-Ends vm (throw e) = tt
  lift-Ends vm (crash x) = tt

  pub bind-Ends :
      {A B : Type 0} (m : Run (Stop D) A) (f : A → Run (Stop D) B)
      → Ends m
      → ((a : A) → Ends (f a))
      → Ends (m >>= f)
  bind-Ends (done a) f e k = k a
  bind-Ends (throw (raised x vm)) f e k = tt
  bind-Ends (throw exhausted) f e k = e
  bind-Ends (crash x) f e k = tt

  pub lift_map-Ends :
      {A B : Type 0} (vm : Vm D) (m : Run (Err D) A) (f : A → B)
      → Ends (lift vm m >>= λ a. done (f a))
  lift_map-Ends vm (done a) f = tt
  lift_map-Ends vm (throw e) f = tt
  lift_map-Ends vm (crash x) f = tt

  pub bind-IsProgress :
      {A : Type 0} (pc : ℕ) (m : Run (Stop D) A) (f : A → Run (Stop D) (Next D))
      → Ends m
      → ((a : A) → IsProgress pc (f a))
      → IsProgress pc (m >>= f)
  bind-IsProgress pc (done a) f e k = k a
  bind-IsProgress pc (throw (raised x vm)) f e k = tt
  bind-IsProgress pc (throw exhausted) f e k = e
  bind-IsProgress pc (crash x) f e k = tt

module _ {D : Type 0} (host : Host D) where
  pub table_at-Ends : (vm : Vm D) (t : ℕ) → Ends (table_at host vm t)
  unfolding table_at
  table_at-Ends vm t = elim (Option-cases (get_elem? vm.tables t)) [
    | inl e ↦ rw (e, table_at) tt
    | inr (o, e) ↦ rw (e, table_at) tt
  ]

  pub found-Ends : (vm : Vm D) (m : Run Failure (Option (Value D))) → Ends (found host vm m)
  unfolding found
  found-Ends vm (done none) = tt
  found-Ends vm (done (some v)) = tt
  found-Ends vm (throw e) = tt
  found-Ends vm (crash x) = tt

  pub table_get-Ends : (vm : Vm D) (t key : Value D) → Ends (table_get host vm t key)
  unfolding table_get
  table_get-Ends vm (table t) key =
      bind-Ends (table_at host vm t) _ (table_at-Ends vm t)
        (λ o. found-Ends vm (hashtable_get host o.table key))
  table_get-Ends vm other key =
      bind-Ends (lift vm (typename other)) _ (lift-Ends vm (typename other)) (λ name. tt)

  pub written-Ends :
      (vm : Vm D) (t : ℕ) (o : TableObject D) (m : Run Failure (Table (Value D) (Value D)))
      → Ends (written host vm t o m)
  unfolding written
  written-Ends vm t o (done x) = tt
  written-Ends vm t o (throw e) = tt
  written-Ends vm t o (crash x) = tt

  pub table_set-Ends :
      (outside : Outside D) (vm : Vm D) (t key v : Value D)
      → Ends (table_set host outside vm t key v)
  unfolding table_set
  table_set-Ends outside vm (table t) key v =
      bind-Ends (table_at host vm t) _ (table_at-Ends vm t) (λ o.
        written-Ends vm t o
          (hashtable_set host o.load_factor (outside.table_memory vm) o.table key v))
  table_set-Ends outside vm not_present key v = tt
  table_set-Ends outside vm other key v = tt

  pub load_prototype-Ends :
      (outside : Outside D) (p : Proto D) (vm : Vm D) (f : Frame D) (a b : ℕ)
      → Ends (load_prototype outside p vm f a b)
  unfolding load_prototype
  load_prototype-Ends outside p vm f a b = elim (Option-cases (get_elem? p.prototypes b)) [
    | inl e ↦ rw (e, load_prototype) tt
    | inr (q, e) ↦
        rw (e, load_prototype)
          (bind-Ends (lift vm (or_null (closure_new outside vm q f.env))) _ (lift-Ends vm _)
            (λ c. search lift_map-Ends))
  ]

  pub next_with-IsProgress :
      (vm : Vm D) (pc : ℕ) (op : Opcode) (m : Run (Err D) (Frame D))
      → IsProgress pc (next_with host vm (pc + increment_count op) m)
  next_with-IsProgress vm pc op m =
      bind-IsProgress pc (lift vm m) _ (lift-Ends vm m)
        (λ f. omega (arith, increment_count-eq-one op))
