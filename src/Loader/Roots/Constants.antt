-- ===== src/Loader/Roots/Constants.antt =====
-- The constants of src/bytecode.c and their objects, in the new bytecode and in the collector's fields.
use mathlib.Core.List.{foldl, append-nil, append_assoc}
use fluffy_vm.Prelude.{
  ℕ, suc, ◌≡◌, refl, sym, ap, ap₂, ◌∙◌, Bool, Bool-cases, inl, inr, List, [], ◌∷◌, ◌++◌, Option,
  some, length,
}
use fluffy_vm.Prelude.Run.{done}
use fluffy_vm.Value.{Value}
use fluffy_vm.Value.Kind.{get_object_ptr}
use fluffy_vm.Loader.{
  ConstantType, type_string, type_long, type_double, Payload, data_str, data_long, data_double,
  Constant, constant_value, load_constants,
}
use fluffy_vm.Loader.Roots.{
  Heap, Loaded, proto_object, BytecodeObject, release_ref, filled, write_constant,
  write_constants_array, write_constants_object_array, write_main_prototype,
}
use fluffy_vm.Loader.Roots.Load.{new_object, temporary, constant_rooted, constants_rooted}
use fluffy_vm.Loader.Roots.Ending.{Ending, Agrees, Agrees-bind, release-newest}
use fluffy_vm.Loader.Roots.Reached.{IsReached}
use fluffy_vm.Loader.Roots.Prototypes.{IsLike, neutral}

module _ {D : Type 0} where
  -- Each constant has its object, or none, at the same index.
  abbrev pub AreObjects : List (Value D) → List (Option ℕ) → Type 0
  AreObjects [] [] = Unit
  AreObjects (v ∷ vs) (o ∷ os) = (get_object_ptr v ≡ done o) × AreObjects vs os
  AreObjects _ _ = ⊥

  -- What the structure points to, the collector finds in a field, and so on in the main prototype.
  pub record IsWhole (b : BytecodeObject D) (main : Loaded) : Type 0 where
    pub self : b.fields 0 ≡ some b.gc_this
    pub constants : (b.fields 1 ≡ b.constants) × (b.constants_len ≡ length b.values)
    pub main_prototype :
        (b.fields 2 ≡ b.main_prototype) × (b.main_prototype ≡ some (proto_object main).gc_this)
    pub constants_object : (b.fields 3 ≡ b.constants_object) × AreObjects b.values b.objects
    pub reached : IsReached (some b.gc_this) main

  abbrev pub values_of : List (Value D × Option ℕ) → List (Value D)
  values_of [] = []
  values_of (v ∷ vs) = v.0 ∷ values_of vs

  abbrev pub objects_of : List (Value D × Option ℕ) → List (Option ℕ)
  objects_of [] = []
  objects_of (v ∷ vs) = v.1 ∷ objects_of vs

  written :
      (vs : List (Value D × Option ℕ)) (b : BytecodeObject D)
      → foldl write_constant b vs
        ≡ record b { values = b.values ++ values_of vs; objects = b.objects ++ objects_of vs }
  unfolding write_constant
  written [] b =
      ap₂ (λ xs os. record b { values = xs; objects = os }) (sym (append-nil b.values))
        (sym (append-nil b.objects))
  written (v ∷ vs) b =
      written vs (write_constant b v)
      ∙ ap₂ (λ xs os. record b { values = xs; objects = os })
          (append_assoc b.values (v.0 ∷ []) (values_of vs))
          (append_assoc b.objects (v.1 ∷ []) (objects_of vs))

  pub filled-IsWhole :
      (fresh : BytecodeObject D) (this constants objects k : ℕ) (vs : List (Value D × Option ℕ))
      (main : Loaded)
      → AreObjects (values_of vs) (objects_of vs)
      → length (values_of vs) ≡ k
      → IsReached (some this) main
      → let b =
          filled fresh this
            (some (constants, k))
            (some (objects, k))
            vs
            (some (proto_object main).gc_this) in
        IsWhole b main × (b.gc_this ≡ this) × (b.values ≡ values_of vs)
  unfolding filled write_constants_array write_constants_object_array write_main_prototype
  filled-IsWhole fresh this constants objects k vs main all len reached = rw (written vs _) (
    record {
      self = refl;
      constants = (refl, sym len);
      main_prototype = (refl, refl);
      constants_object = (refl, all);
      reached = reached;
    },
    refl,
    refl,
  )

  abbrev pub constants_end :
      List (Constant D) → List ℕ → ℕ → Ending (List (Value D × Option ℕ)) (List (Value D) × ℕ)
  constants_end cs base n =
      neutral (λ vs next. (values_of vs, next))
        (λ vs. AreObjects (values_of vs) (objects_of vs) × (length (values_of vs) ≡ length cs)) base
        n

module _ {D : Type 0} (memory : ℕ → Bool) where
  constant_rooted-Agrees :
      (c : ConstantType) (p : Payload D) (h : Heap) (base : List ℕ) (n : ℕ)
      → IsLike h base n
      → Agrees {D = D}
          (neutral
            (λ (v : Value D × Option ℕ) next. (v.0, next))
            (λ v. get_object_ptr v.0 ≡ done v.1)
            base
            n)
          (constant_rooted memory c p h)
          (constant_value memory h.next c p)
  unfolding constant_rooted constant_value temporary new_object release_ref get_object_ptr
  constant_rooted-Agrees type_string (data_str bytes) h base n like =
      elim (Bool-cases (memory h.next)) [
        | inl e ↦ rw e (refl, refl, release-newest h.next h.roots ∙ like.0, like.1)
        | inr e ↦ rw e (refl, like.0, like.1)
      ]
  constant_rooted-Agrees type_long (data_long w) h base n like = (refl, refl, like.0, like.1)
  constant_rooted-Agrees type_double (data_double x) h base n like = (refl, refl, like.0, like.1)
  constant_rooted-Agrees _ _ h base n like = (refl, like.0, like.1)

  pub constants_rooted-Agrees :
      (cs : List (Constant D)) (h : Heap) (base : List ℕ) (n : ℕ)
      → IsLike h base n
      → Agrees {D = D}
          (constants_end cs base n)
          (constants_rooted memory cs h)
          (load_constants memory h.next cs)
  unfolding constants_rooted load_constants
  constants_rooted-Agrees [] h base n like = (refl, (tt, refl), like.0, like.1)
  constants_rooted-Agrees (c ∷ cs) h base n like =
      Agrees-bind _ (constants_end (c ∷ cs) base n) _ _ _ _ (refl, refl)
        (constant_rooted-Agrees c.constant_type c.payload h base n like)
        λ v h1 own r1 m1.
          Agrees-bind (constants_end cs base n) (constants_end (c ∷ cs) base n) _ _ _ _ (refl, refl)
            (constants_rooted-Agrees cs h1 base n (r1, m1))
            λ vs h2 all r2 m2. (refl, ((own, all.0), ap suc all.1), r2, m2)
