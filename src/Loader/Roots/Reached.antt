-- ===== src/Loader/Roots/Reached.antt =====
-- What the objects that src/bytecode.c has loaded say, and what of them the collector reaches.
use fluffy_vm.Prelude.{ℕ, suc, ◌≡◌, List, [], ◌∷◌, Option, none, some, length}
use fluffy_vm.Prelude.Int.{ℤ}
use fluffy_vm.Loader.{Prototype, Prototypes, prototype, no_prototypes, more_prototypes}
use fluffy_vm.Loader.Roots.{ProtoObject, Loaded, LoadedList, loaded, no_loaded, more_loaded}

-- What the loaded objects say.
abbrev pub info_of : List ℤ → Option (List ℤ)
info_of [] = none
info_of (l ∷ ls) = some (l ∷ ls)

unfoldable mutual
  pub prototype_of : Loaded → Prototype
  prototype_of (loaded p ps) = prototype (prototypes_of ps) p.code (info_of p.lines) p.source_file

  pub prototypes_of : LoadedList → Prototypes
  prototypes_of no_loaded = no_prototypes
  prototypes_of (more_loaded p ps) = more_prototypes (prototype_of p) (prototypes_of ps)

abbrev pub loaded_count : LoadedList → ℕ
loaded_count no_loaded = 0
loaded_count (more_loaded p ps) = suc (loaded_count ps)

-- What the structure points to, the collector finds in a field; and the lengths are right.
pub record IsMirrored (bytecode : Option ℕ) (p : ProtoObject) (ps : LoadedList) : Type 0 where
  pub self : p.fields 0 ≡ some p.gc_this
  pub owner : (p.bytecode ≡ bytecode) × (p.fields 1 ≡ bytecode)
  pub instructions : (p.fields 2 ≡ p.instructions) × (p.instructions_len ≡ length p.code)
  pub prototypes : (p.fields 3 ≡ p.prototypes) × (p.prototypes_len ≡ loaded_count ps)
  pub line_info : (p.fields 4 ≡ p.line_info) × (p.line_info_len ≡ length p.lines)
  pub source_file : p.fields 5 ≡ some p.source_file.address

unfoldable mutual
  pub IsReached : Option ℕ → Loaded → Type 0
  IsReached b (loaded p ps) = IsMirrored b p ps × AreReached b ps

  pub AreReached : Option ℕ → LoadedList → Type 0
  AreReached b no_loaded = Unit
  AreReached b (more_loaded p ps) = IsReached b p × AreReached b ps
