-- ===== src/Loader/Roots/Laws.antt =====
-- `bytecode_load` of src/bytecode.c and the machine's root: no reference and no unpacked message stays behind on any
-- path, and the collector reaches all that is loaded.
use fluffy_vm.Prelude.{
  ℕ, suc, ◌≡◌, refl, ap, ap₂, ◌∙◌, arith, Bool, Bool-cases, inl, inr, List, ◌∷◌, Option, none, some,
  ◌==◌, length,
}
use fluffy_vm.Prelude.Run.{Run, done, throw, crash, ◌>>=◌}
use fluffy_vm.Value.Error.{Err}
use fluffy_vm.Runtime.Messages.{remove_ref}
use fluffy_vm.Loader.{
  Message, Prototype, BytecodeMessage, Bytecode, release_num, load_prototype_message, main_of,
  unpacked, bytecode_load,
}
use fluffy_vm.Loader.Roots.{
  Heap, ProtoObject, Loaded, proto_object, BytecodeObject, Rooted, release_ref,
}
use fluffy_vm.Loader.Roots.Load.{
  and_free, or_release, main_rooted, message_rooted, unpacked_rooted, bytecode_load_rooted,
}
use fluffy_vm.Loader.Roots.Ending.{Ending, Agrees, Agrees-bind, or_release-Agrees, release-newest}
use fluffy_vm.Loader.Roots.Reached.{IsReached, prototype_of}
use fluffy_vm.Loader.Roots.Prototypes.{
  IsLike, neutral, new_object-bind, temporary-Agrees, loads, load_rooted-Agrees,
}
use fluffy_vm.Loader.Roots.Constants.{
  IsWhole, filled-IsWhole, constants_end, constants_rooted-Agrees,
}

module _ {D B : Type 0} where
  bind-done : (m : Run (Err D) B) → (m >>= λ b. done b) ≡ m
  bind-done (done b) = refl
  bind-done (throw e) = refl
  bind-done (crash x) = refl

  -- The message is freed on both ways out.
  and_free-Agrees :
      {A : Type 0} (s : Ending A B) (m : Rooted D A) (m' : Run (Err D) B)
      → Agrees (record s { unpacked = suc s.unpacked }) m m'
      → Agrees s (and_free m) m'
  unfolding and_free
  and_free-Agrees s (done x) (done b) g = (g.0, g.1, g.2, omega (arith, g.3))
  and_free-Agrees s (throw x) (throw e) g = (g.0, g.1, omega (arith, g.2))
  and_free-Agrees s (crash x) (crash y) g = g
  and_free-Agrees s (done x) (throw e) g = absurd g
  and_free-Agrees s (done x) (crash y) g = absurd g
  and_free-Agrees s (throw x) (done b) g = absurd g
  and_free-Agrees s (throw x) (crash y) g = absurd g
  and_free-Agrees s (crash x) (done b) g = absurd g
  and_free-Agrees s (crash x) (throw e) g = absurd g

module _ {D : Type 0} where
  -- The new bytecode `this`, whole, with the root `after`; or a failure, with `base`.
  abbrev pub wholes : ℕ → List ℕ → List ℕ → ℕ → Ending (BytecodeObject D × Loaded) (Bytecode D)
  wholes this after base n = record {
    view = λ x next. record { constants = x.0.values; main_prototype = prototype_of x.1 };
    holds = λ x. (x.0.gc_this ≡ this) × IsWhole x.0 x.1;
    after = after;
    base = base;
    unpacked = n;
  }

module _ {D : Type 0} (memory : ℕ → Bool) where
  module _ (fresh_proto : ProtoObject) (fresh : BytecodeObject D) where
    abbrev main_end : Option ℕ → List ℕ → ℕ → Ending Loaded (Prototype × ℕ)
    main_end this base n = neutral (λ l next. (prototype_of l, next)) (IsReached this) base n

    main_rooted-Agrees :
        (this : Option ℕ) (o : Option Message) (h : Heap) (base : List ℕ) (n : ℕ)
        → IsLike h base n
        → Agrees {D = D}
            (main_end this base n)
            (main_rooted memory fresh_proto fresh this o h)
            (main_of memory h.next o)
    unfolding main_rooted main_of or_release release_ref
    main_rooted-Agrees this none h base n like =
        new_object-bind D memory (main_end this base n) _ _ h like λ h1 like1. refl
    main_rooted-Agrees this (some m) h base n like =
        rw (bind-done (load_prototype_message memory h.next m)) at (
          Agrees-bind (loads D memory fresh_proto this h.next base n) (main_end this base n) _ _
            (λ x. done (x.0, release_ref (proto_object x.0).gc_this x.1)) (λ b. done b) (refl, refl)
            (load_rooted-Agrees D memory fresh_proto this m h base n like)
            λ p h1 new r1 m1.
              (refl, new.1, ap₂ remove_ref new.0 r1 ∙ release-newest h.next base, m1))

    unpacked_rooted-Agrees :
        (this : ℕ) (o : Option (BytecodeMessage D)) (h : Heap) (base : List ℕ) (n : ℕ)
        → IsLike h base n
        → Agrees {D = D}
            (wholes this base base n)
            (unpacked_rooted memory fresh_proto fresh this o h)
            (unpacked memory h.next o)
    unfolding unpacked_rooted unpacked message_rooted
    unpacked_rooted-Agrees this none h base n like = (refl, like.0, like.1)
    unpacked_rooted-Agrees this (some m) h base n like =
        let at_rest : Ending ℕ ℕ = neutral (λ _ next. next) (λ _. Unit) base (suc n) in
        let ends = wholes this base base (suc n) in
        and_free-Agrees (wholes this base base n) _ _
          (elim (Bool-cases (m.version == release_num)) [
            | inr e ↦ rw e (refl, like.0, ap suc like.1)
            | inl e ↦ rw e (
                Agrees-bind at_rest ends _ _ _ _ (refl, refl)
                  (temporary-Agrees D memory (record h { messages = suc h.messages }) base (suc n)
                    (like.0, ap suc like.1))
                  λ constants h1 _ r1 m1.
                    Agrees-bind at_rest ends _ _ _ _ (refl, refl)
                      (temporary-Agrees D memory h1 base (suc n) (r1, m1))
                      λ objects h2 _ r2 m2.
                        Agrees-bind (constants_end m.constants base (suc n)) ends _ _ _ _
                          (refl, refl)
                          (constants_rooted-Agrees memory m.constants h2 base (suc n) (r2, m2))
                          λ vs h3 all r3 m3.
                            Agrees-bind (main_end (some this) base (suc n)) ends _ _ _ _
                              (refl, refl)
                              (main_rooted-Agrees (some this) m.main_prototype h3 base (suc n)
                                (r3, m3))
                              λ main h4 reached r4 m4.
                                let w =
                                  filled-IsWhole fresh this constants objects (length m.constants)
                                    vs main all.0 all.1 reached in
                                (
                                  ap
                                      (λ xs. record {
                                        constants = xs;
                                        main_prototype = prototype_of main;
                                      })
                                      w.2,
                                  (w.1, w.0),
                                  r4,
                                  m4,
                                ))
          ])

    -- `bytecode_load`, whichever allocations succeed and whatever protobuf unpacks, from a root `roots` and with `messages`
    -- unpacked messages. It ends as the model of `Loader` does. When it returns, the
    -- root has the reference of the new object before `roots`, and what the structures point to is in
    -- the fields that the collector reads, in the new object and in every prototype. When it fails, the root is
    -- `roots` again. The messages are as many as before.
    pub bytecode_load_rooted_lem :
        (unpack : List ℕ → Option (BytecodeMessage D)) (bytes : List ℕ) (roots : List ℕ)
        (messages : ℕ)
        → Agrees {D = D}
            (wholes 0 (0 ∷ roots) roots messages)
            (bytecode_load_rooted memory fresh_proto fresh unpack bytes
              (record { next = 0; roots = roots; messages = messages }))
            (bytecode_load memory unpack bytes)
    unfolding bytecode_load_rooted bytecode_load
    bytecode_load_rooted_lem unpack bytes roots messages =
        let t = wholes 0 (0 ∷ roots) roots messages in
        new_object-bind D memory t _ _ (record { next = 0; roots = roots; messages = messages })
          (refl, refl)
          λ h1 like1.
            or_release-Agrees 0 t _ _
              (unpacked_rooted-Agrees 0 (unpack bytes) h1 (0 ∷ roots) messages like1)
