-- ===== src/Loader/Roots/Ending.antt =====
-- How the two models of src/bytecode.c are compared, `Loader` and `Loader.Roots.Load`: they end alike, and each end says
-- what it leaves in the root.
use fluffy_vm.Prelude.{ℕ, ◌≡◌, sym, ap, ◌∙◌, arith, List, ◌∷◌, ==_iff}
use fluffy_vm.Prelude.Run.{Run, done, throw, crash, ◌>>=◌}
use fluffy_vm.Value.Error.{Err}
use fluffy_vm.Runtime.Messages.{remove_ref}
use fluffy_vm.Loader.Roots.{Heap, Rooted, release_ref}
use fluffy_vm.Loader.Roots.Load.{or_release}

-- How both models end: the result has the given view and satisfies `holds`, and the root is `after`, with the failed
-- ones at `base`; the number of messages is `unpacked`.
pub record Ending (A B : Type 0) : Type 1 where
  pub view : A → ℕ → B
  pub holds : A → Type 0
  pub after : List ℕ
  pub base : List ℕ
  pub unpacked : ℕ

abbrev pub Agrees : {D A B : Type 0} → Ending A B → Rooted D A → Run (Err D) B → Type 0
Agrees s (done x) (done b) =
    (s.view x.0 x.1.next ≡ b) × s.holds x.0 × (x.1.roots ≡ s.after) × (x.1.messages ≡ s.unpacked)
Agrees s (throw x) (throw e) = (x.0 ≡ e) × (x.1.roots ≡ s.base) × (x.1.messages ≡ s.unpacked)
Agrees s (crash x) (crash y) = x ≡ y
Agrees s _ _ = ⊥

pub release-newest : (r : ℕ) (base : List ℕ) → remove_ref r (r ∷ base) ≡ base
unfolding remove_ref
release-newest r base = ground (arith, ==_iff r r)

module _ {D A B C E : Type 0} where
  -- The next part starts where the first ended, and a failure of the first is one of both.
  pub Agrees-bind :
      (s : Ending A B) (t : Ending C E) (m : Rooted D A) (m' : Run (Err D) B)
      (f : A × Heap → Rooted D C) (f' : B → Run (Err D) E)
      → (t.base ≡ s.base) × (t.unpacked ≡ s.unpacked)
      → Agrees s m m'
      → ((a : A) (h : Heap)
          → s.holds a
          → h.roots ≡ s.after
          → h.messages ≡ s.unpacked
          → Agrees t (f (a, h)) (f' (s.view a h.next)))
      → Agrees t (m >>= f) (m' >>= f')
  Agrees-bind s t (done x) (done b) f f' same g k = rw g.0 at (k x.0 x.1 g.1 g.2 g.3)
  Agrees-bind s t (throw x) (throw e) f f' same g k = (g.0, g.1 ∙ sym same.0, g.2 ∙ sym same.1)
  Agrees-bind s t (crash x) (crash y) f f' same g k = g
  Agrees-bind s t (done x) (throw e) f f' same g k = absurd g
  Agrees-bind s t (done x) (crash y) f f' same g k = absurd g
  Agrees-bind s t (throw x) (done b) f f' same g k = absurd g
  Agrees-bind s t (throw x) (crash y) f f' same g k = absurd g
  Agrees-bind s t (crash x) (done b) f f' same g k = absurd g
  Agrees-bind s t (crash x) (throw e) f f' same g k = absurd g

module _ {D A B : Type 0} where
  -- At the label `error` the newest reference is the object's own.
  pub or_release-Agrees :
      (r : ℕ) (t : Ending A B) (m : Rooted D A) (m' : Run (Err D) B)
      → Agrees (record t { base = r ∷ t.base }) m m'
      → Agrees t (or_release r m) m'
  unfolding or_release release_ref
  or_release-Agrees r t (done x) (done b) g = g
  or_release-Agrees r t (throw x) (throw e) g =
      (g.0, ap (remove_ref r) g.1 ∙ release-newest r t.base, g.2)
  or_release-Agrees r t (crash x) (crash y) g = g
  or_release-Agrees r t (done x) (throw e) g = absurd g
  or_release-Agrees r t (done x) (crash y) g = absurd g
  or_release-Agrees r t (throw x) (done b) g = absurd g
  or_release-Agrees r t (throw x) (crash y) g = absurd g
  or_release-Agrees r t (crash x) (done b) g = absurd g
  or_release-Agrees r t (crash x) (throw e) g = absurd g
