-- ===== src/Interpreter/Closures.antt =====
-- src/closure.c: what a new closure holds. Its number is its place among the closures of `Vm`; the root that keeps it
-- and the finalizer of the data that a C function is bound to belong to the collector.
use fluffy_vm.Prelude.{ℕ, not, none, some, [], ◌∷◌, ◌++◌, if◌then◌else◌}
use fluffy_vm.Prelude.Run.{Run, done, throw, crash, null_dereference, ◌>>=◌}
use fluffy_vm.Value.{Value}
use fluffy_vm.Value.Error.{Err, static, out_of_memory}
use fluffy_vm.Interpreter.Machine.{Closure, Vm, Outside}

module _ {D : Type 0} where
  unfoldable pub closure_new_common : Outside D → Vm D → Value D → Run (Err D) (Closure D)
  closure_new_common outside vm env =
      if not (outside.closure_ok vm)
      then throw (static out_of_memory)
      else done (record { prototype = none; func = 0; env = env; lua_c_function = none })

  -- `closure_new`, for the prototype with this number.
  unfoldable pub closure_new : Outside D → Vm D → ℕ → Value D → Run (Err D) (Closure D)
  unfolding closure_new_common
  closure_new outside vm prototype env = do
    c ← closure_new_common outside vm env
    done (record c { prototype = some prototype })

  unfoldable pub closure_from_cfunction : Outside D → Vm D → ℕ → Value D → Run (Err D) (Closure D)
  unfolding closure_new_common
  closure_from_cfunction outside vm func env = do
    c ← closure_new_common outside vm env
    done (record c { func = func })

  abbrev pub add_closure : Vm D → Closure D → Vm D
  add_closure vm c = record vm { closures = vm.closures ++ c ∷ [] }

  -- The NULL of a failed allocation, which is used without a test.
  unfoldable pub or_null : {A : Type 0} → Run (Err D) A → Run (Err D) A
  or_null (done a) = done a
  or_null (throw e) = crash null_dereference
  or_null (crash x) = crash x
