-- ===== src/Runtime/Messages.antt =====
-- src/fluffyvm.c: `errmsg` of the running thread and the global table, each with the reference that keeps its object
-- in a root. A root is the list of the objects that it refers to, the newest first.
use fluffy_vm.Prelude.{
  ℕ, ◌≡◌, refl, sym, ap, ◌∙◌, arith, Bool, true, false, List, [], ◌∷◌, Option, none, some, ◌==◌,
  ==_iff, if◌then◌else◌,
}
use fluffy_vm.Prelude.Run.{Run, done, crash, abort, ◌>>=◌}
use fluffy_vm.Value.{Value, Str, not_present, string}
use fluffy_vm.Value.Error.{Err, StaticString, out_of_memory_while_an_error_occured}
use fluffy_vm.Value.Kind.{IsPresent, get_object_ptr}

-- `foxgc_api_remove_from_root2`: the reference that was added for this object.
unfoldable pub remove_ref : ℕ → List ℕ → List ℕ
remove_ref r [] = []
remove_ref r (x ∷ xs) = let rest = remove_ref r xs in if x == r then xs else x ∷ rest

unfoldable pub release : Option ℕ → List ℕ → List ℕ
unfolding remove_ref
release none roots = roots
release (some r) roots = remove_ref r roots

abbrev pub held : Option ℕ → List ℕ → List ℕ
held none others = others
held (some r) others = r ∷ others

-- `errMsgKey`, `errMsgRootRefKey` and the root of the thread, and `hasInit`.
pub record ErrMsg (D : Type 0) : Type 0 where
  pub has_init : Bool
  pub message : Option (Value D)
  pub ref : Option ℕ
  pub roots : List ℕ

module _ {D : Type 0} where
  released_at : ErrMsg D → Option (Value D) → ErrMsg D
  unfolding release
  released_at e none = e
  released_at e (some v) = record e { ref = none; roots = release e.ref e.roots; message = none }

  -- The reference for the object of the new message, when it has one.
  with_object : ErrMsg D → Value D → Option ℕ → ErrMsg D
  with_object e v none = record e { message = some v }
  with_object e v (some p) = record e { message = some v; ref = some p; roots = p ∷ e.roots }

  unfoldable pub set_errmsg : ErrMsg D → Value D → Run (Err D) (ErrMsg D)
  unfolding released_at with_object get_object_ptr
  set_errmsg e not_present = done (record (released_at e e.message) { message = none; ref = none })
  set_errmsg e v = do ptr ← get_object_ptr v; done (with_object (released_at e e.message) v ptr)

  unfoldable pub is_errmsg_present : ErrMsg D → Bool
  is_errmsg_present e = elim e.message [ none ↦ false | some v ↦ e.has_init ]

  message_or_none : Option (Value D) → Value D
  message_or_none none = not_present
  message_or_none (some v) = v

  unfoldable pub get_errmsg : ErrMsg D → Value D
  unfolding message_or_none
  get_errmsg e = if e.has_init then message_or_none e.message else not_present

  -- `fluffyvm_set_errmsg_vprintf`: the new string, or the static text when there is no memory for it.
  unfoldable pub set_errmsg_printf :
      (StaticString → Str) → ErrMsg D → Option Str → Run (Err D) (ErrMsg D)
  unfolding set_errmsg
  set_errmsg_printf text e none = set_errmsg e (string (text out_of_memory_while_an_error_occured))
  set_errmsg_printf text e (some s) = set_errmsg e (string s)

-- `globalTable`, `globalTableRootRef` and the machine's static root.
pub record Global (D : Type 0) : Type 0 where
  pub value : Value D
  pub ref : Option ℕ
  pub roots : List ℕ

module _ {D : Type 0} where
  unfoldable pub set_global : Global D → Value D → Run (Err D) (Global D)
  unfolding release get_object_ptr
  set_global g v = do
    ptr ← get_object_ptr v
    done (record { value = v; ref = ptr; roots = held ptr (release g.ref g.roots) })

  unfoldable pub present_global : Value D → Run (Err D) (Value D)
  present_global not_present = crash abort
  present_global v = done v

  unfoldable pub fluffyvm_get_global : Global D → Run (Err D) (Value D)
  unfolding present_global
  fluffyvm_get_global g = present_global g.value

release-held : (r : Option ℕ) (others : List ℕ) → release r (held r others) ≡ others
unfolding release remove_ref
release-held none others = refl
release-held (some r) others = ground (arith, ==_iff r r)

module _ {D : Type 0} where
  -- The thread's root holds the object of the message, when it has one, and beyond that `others`.
  pub record IsHeld (e : ErrMsg D) (others : List ℕ) : Type 0 where
    pub absent : e.message ≡ none → e.ref ≡ none
    pub roots : e.roots ≡ held e.ref others

  -- Releasing the old message leaves the other references alone.
  released_at_lem :
      (e : ErrMsg D) (others : List ℕ) (m : Option (Value D))
      → IsHeld e others
      → e.message ≡ m
      → ((released_at e m).roots ≡ others)
        × ((released_at e m).ref ≡ none)
        × ((released_at e m).has_init ≡ e.has_init)
  unfolding released_at
  released_at_lem e others none h same =
      (h.roots ∙ ap (λ r. held r others) (h.absent same), h.absent same, refl)
  released_at_lem e others (some v) h same =
      (ap (λ rs. release e.ref rs) h.roots ∙ release-held e.ref others, refl, refl)

  object_of : (v : Value D) → IsPresent v → (ptr : Option ℕ) × (get_object_ptr v ≡ done ptr)
  unfolding get_object_ptr
  object_of not_present h = absurd h
  object_of _ h = (_, refl)

  set_present :
      (e : ErrMsg D) (v : Value D) (ptr : Option ℕ)
      → get_object_ptr v ≡ done ptr
      → set_errmsg e v ≡ done (with_object (released_at e e.message) v ptr)
  unfolding set_errmsg get_object_ptr
  set_present e not_present ptr h = cc
  set_present e v ptr h =
      ap
        (λ (m : Run (Err D) (Option ℕ)).
          m >>= λ p. done (with_object (released_at e e.message) v p))
        h

  with_object_lem :
      (r : ErrMsg D) (others : List ℕ) (v : Value D) (ptr : Option ℕ)
      → r.roots ≡ others
      → r.ref ≡ none
      → r.has_init ≡ true
      → IsHeld (with_object r v ptr) others
        × ((with_object r v ptr).ref ≡ ptr)
        × (get_errmsg (with_object r v ptr) ≡ v)
  unfolding with_object get_errmsg
  with_object_lem r others v none roots ref init = (
    record { absent = λ e. cc; roots = roots ∙ sym (ap (λ k. held k others) ref) },
    ref,
    rw init refl,
  )
  with_object_lem r others v (some p) roots ref init =
      (record { absent = λ e. cc; roots = ap (λ rs. p ∷ rs) roots }, refl, rw init refl)

  -- `fluffyvm_set_errmsg` of a value releases the object of the message before, keeps that of the new one, and
  -- touches no other reference of the thread's root; once the machine is set up, `fluffyvm_get_errmsg`
  -- returns that value.
  pub set_errmsg_lem :
      (e : ErrMsg D) (others : List ℕ) (v : Value D)
      → IsHeld e others
      → e.has_init ≡ true
      → IsPresent v
      → (e' : ErrMsg D) × (set_errmsg e v ≡ done e')
        × IsHeld e' others
        × (get_object_ptr v ≡ done e'.ref)
        × (get_errmsg e' ≡ v)
  set_errmsg_lem e others v h init p =
      let (roots, ref, same_init) = released_at_lem e others e.message h refl in
      let (ptr, object) = object_of v p in
      let (w, same_ref, same) =
        with_object_lem (released_at e e.message) others v ptr roots ref (same_init ∙ init) in
      (
        with_object (released_at e e.message) v ptr,
        set_present e v ptr object,
        w,
        object ∙ ap done (sym same_ref),
        same,
      )
