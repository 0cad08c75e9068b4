-- ===== src/Loader/Roots/Prototypes.antt =====
-- `loadPrototype` of src/bytecode.c: it loads what `Loader` says, the collector reaches all of it, and the root has one
-- reference more, or none.
use fluffy_vm.Prelude.{
  ℕ, suc, ◌≡◌, refl, sym, ap, ap₂, ◌∙◌, Bool, Bool-cases, inl, inr, List, [], ◌∷◌, Option, some,
  length,
}
use fluffy_vm.Prelude.Int.{ℤ}
use fluffy_vm.Prelude.Run.{Run, ◌>>=◌}
use fluffy_vm.Value.{Str}
use fluffy_vm.Value.Error.{Err, static, out_of_memory}
use fluffy_vm.Runtime.Messages.{remove_ref}
use fluffy_vm.Loader.{
  Message, Messages, prototype_message, no_messages, more_messages, Prototype, Prototypes, allocate,
  source_file, line_info, load_prototype_message, load_prototype_messages,
}
use fluffy_vm.Loader.Roots.{
  Heap, Array, ProtoObject, Loaded, LoadedList, proto_object, message_count, Rooted, release_ref,
  built,
}
use fluffy_vm.Loader.Roots.Load.{
  new_object, temporary, source_name, line_array, load_rooted, load_rooted_list,
}
use fluffy_vm.Loader.Roots.{
  array_length, write_bytecode, write_source_file_name, write_prototypes_array,
  write_instructions_array, write_line_info_array,
}
use fluffy_vm.Loader.Roots.Ending.{Ending, Agrees, Agrees-bind, or_release-Agrees, release-newest}
use fluffy_vm.Loader.Roots.Reached.{
  info_of, prototype_of, prototypes_of, loaded_count, IsMirrored, IsReached, AreReached,
}

-- The root is as it was, whether or not there is a result.
abbrev pub neutral : {A B : Type 0} → (A → ℕ → B) → (A → Type 0) → List ℕ → ℕ → Ending A B
neutral view holds base n = record {
  view = view;
  holds = holds;
  after = base;
  base = base;
  unpacked = n;
}

abbrev pub IsLike : Heap → List ℕ → ℕ → Type 0
IsLike h base n = (h.roots ≡ base) × (h.messages ≡ n)

built-IsMirrored :
    (fresh : ProtoObject) (this : ℕ) (b : Option ℕ) (name : Str) (prototypes instructions : ℕ)
    (line_info : Array) (code : List ℕ) (lines : List ℤ) (k : ℕ) (ps : LoadedList)
    → array_length line_info ≡ length lines
    → loaded_count ps ≡ k
    → IsMirrored b
        (built fresh this b name
          (some (prototypes, k))
          (some (instructions, length code))
          line_info
          code
          lines)
        ps
unfolding built write_bytecode write_source_file_name write_prototypes_array
    write_instructions_array write_line_info_array
built-IsMirrored fresh this b name prototypes instructions line_info code lines k ps len count =
    record {
      self = refl;
      owner = (refl, refl);
      instructions = (refl, refl);
      prototypes = (refl, sym count);
      line_info = (refl, len);
      source_file = refl;
    }

module _ (D : Type 0) (memory : ℕ → Bool) where
  pub new_object-bind :
      {C E : Type 0} (t : Ending C E) (f : ℕ × Heap → Rooted D C) (f' : ℕ → Run (Err D) E)
      (h : Heap)
      → IsLike h t.base t.unpacked
      → ((h1 : Heap)
          → IsLike h1 (h.next ∷ t.base) t.unpacked
          → Agrees t (f (h.next, h1)) (f' h1.next))
      → Agrees t (new_object memory (static out_of_memory) h >>= f) (allocate memory h.next >>= f')
  unfolding new_object allocate
  new_object-bind t f f' h like k = elim (Bool-cases (memory h.next)) [
    | inl e ↦ rw e (
        k (record h { next = suc h.next; roots = h.next ∷ h.roots })
          (ap (λ r. h.next ∷ r) like.0, like.1))
    | inr e ↦ rw e (refl, like.0, like.1)
  ]

  pub temporary-Agrees :
      (h : Heap) (base : List ℕ) (n : ℕ)
      → IsLike h base n
      → Agrees {D = D}
          (neutral (λ _ next. next) (λ _. Unit) base n)
          (temporary memory (static out_of_memory) h)
          (allocate memory h.next)
  unfolding temporary new_object release_ref allocate
  temporary-Agrees h base n like = elim (Bool-cases (memory h.next)) [
    | inl e ↦ rw e (refl, tt, release-newest h.next h.roots ∙ like.0, like.1)
    | inr e ↦ rw e (refl, like.0, like.1)
  ]

  source_name-Agrees :
      (cs : List ℕ) (h : Heap) (base : List ℕ) (n : ℕ)
      → IsLike h base n
      → Agrees {D = D}
          (neutral (λ s next. (s, next)) (λ _. Unit) base n)
          (source_name memory cs h)
          (source_file memory h.next cs)
  unfolding source_name source_file temporary new_object release_ref
  source_name-Agrees [] h base n like = elim (Bool-cases (memory h.next)) [
    | inl e ↦ rw e (refl, tt, release-newest h.next h.roots ∙ like.0, like.1)
    | inr e ↦ rw e refl
  ]
  source_name-Agrees (c ∷ cs) h base n like = elim (Bool-cases (memory h.next)) [
    | inl e ↦ rw e (refl, tt, release-newest h.next h.roots ∙ like.0, like.1)
    | inr e ↦ rw e refl
  ]

  line_array-Agrees :
      (ls : List ℤ) (h : Heap) (base : List ℕ) (n : ℕ)
      → IsLike h base n
      → Agrees {D = D}
          (neutral (λ _ next. (info_of ls, next)) (λ a. array_length a ≡ length ls) base n)
          (line_array memory ls h)
          (line_info memory h.next ls)
  unfolding line_array line_info temporary new_object release_ref allocate
  line_array-Agrees [] h base n like = (refl, refl, like.0, like.1)
  line_array-Agrees (l ∷ ls) h base n like = elim (Bool-cases (memory h.next)) [
    | inl e ↦ rw e (refl, refl, release-newest h.next h.roots ∙ like.0, like.1)
    | inr e ↦ rw e (refl, like.0, like.1)
  ]

  module _ (fresh : ProtoObject) (b : Option ℕ) where
    -- The new prototype keeps its reference.
    abbrev pub loads : ℕ → List ℕ → ℕ → Ending Loaded (Prototype × ℕ)
    loads this base n = record {
      view = λ l next. (prototype_of l, next);
      holds = λ l. ((proto_object l).gc_this ≡ this) × IsReached b l;
      after = this ∷ base;
      base = base;
      unpacked = n;
    }

    abbrev pub loads_list : Messages → List ℕ → ℕ → Ending LoadedList (Prototypes × ℕ)
    loads_list ms base n =
        neutral (λ ps next. (prototypes_of ps, next))
          (λ ps. (loaded_count ps ≡ message_count ms) × AreReached b ps) base n

    mutual
      unfolding load_rooted load_rooted_list load_prototype_message load_prototype_messages
          prototype_of prototypes_of IsReached AreReached release_ref

      pub load_rooted-Agrees :
          (m : Message) (h : Heap) (base : List ℕ) (n : ℕ)
          → IsLike h base n
          → Agrees {D = D}
              (loads h.next base n)
              (load_rooted memory fresh b m h)
              (load_prototype_message memory h.next m)
      load_rooted-Agrees (prototype_message inner code lines source) h base n like =
          let kept = h.next ∷ base in
          let t = loads h.next base n in
          let inside = record t { base = kept } in
          new_object-bind t _ _ h like λ h1 like1. or_release-Agrees h.next t _ _ (
            Agrees-bind (neutral (λ s next. (s, next)) (λ _. Unit) kept n) inside _ _ _ _
              (refl, refl) (source_name-Agrees source h1 kept n like1)
              λ name h2 _ r2 m2.
                Agrees-bind (neutral (λ _ next. next) (λ _. Unit) kept n) inside _ _ _ _
                  (refl, refl) (temporary-Agrees h2 kept n (r2, m2))
                  λ prototypes h3 _ r3 m3.
                    Agrees-bind (neutral (λ _ next. next) (λ _. Unit) kept n) inside _ _ _ _
                      (refl, refl) (temporary-Agrees h3 kept n (r3, m3))
                      λ instructions h4 _ r4 m4.
                        Agrees-bind _ inside _ _ _ _ (refl, refl)
                          (line_array-Agrees lines h4 kept n (r4, m4))
                          λ info h5 len r5 m5.
                            Agrees-bind (loads_list inner kept n) inside _ _ _ _ (refl, refl)
                              (load_rooted_list-Agrees inner h5 kept n (r5, m5))
                              λ ps h6 all r6 m6. (
                                refl,
                                (
                                  refl,
                                  (
                                    built-IsMirrored fresh h.next b name prototypes instructions
                                        info code lines (message_count inner) ps len all.0,
                                    all.1,
                                  ),
                                ),
                                r6,
                                m6,
                              ))

      load_rooted_list-Agrees :
          (ms : Messages) (h : Heap) (base : List ℕ) (n : ℕ)
          → IsLike h base n
          → Agrees {D = D}
              (loads_list ms base n)
              (load_rooted_list memory fresh b ms h)
              (load_prototype_messages memory h.next ms)
      load_rooted_list-Agrees no_messages h base n like = (refl, (refl, tt), like.0, like.1)
      load_rooted_list-Agrees (more_messages m ms) h base n like =
          Agrees-bind (loads h.next base n) (loads_list (more_messages m ms) base n) _ _ _ _
            (refl, refl) (load_rooted-Agrees m h base n like)
            λ p h1 new r1 m1.
              Agrees-bind (loads_list ms base n) (loads_list (more_messages m ms) base n) _ _ _ _
                (refl, refl)
                (load_rooted_list-Agrees ms (release_ref (proto_object p).gc_this h1) base n
                  (ap₂ remove_ref new.0 r1 ∙ release-newest h.next base, m1))
                λ ps h2 all r2 m2. (refl, (ap suc all.0, (new.1, all.1)), r2, m2)
