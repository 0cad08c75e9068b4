-- ===== src/Value.antt =====
-- src/value.h, src/value.c: the tagged union of a Lua value, its constructors' payloads, and what
-- the value functions take from outside. `New` makes strings and userdata.
pub mod Error
pub mod Kind
pub mod Hash
pub mod Equal
pub mod Math
pub mod Print
pub mod New
use fluffy_vm.Prelude.{
  ℕ, Bool, true, false, List, Option, none, some, if◌then◌else◌, ◌/◌, ◌%◌, zero, suc, [], ◌∷◌,
}
use fluffy_vm.Prelude.Int.{ℤ}

-- `struct value_string`, with its address, the bytes of its data array less the terminator, and the
-- cached hash (0 when none is cached).
pub record Str : Type 0 where
  pub address : ℕ
  pub bytes : List ℕ
  pub hash_code : ℕ

-- `struct value_userdata`; pointers are numbers.
pub record Userdata : Type 0 where
  pub data_obj : ℕ
  pub user_data : ℕ
  pub user_object : ℕ
  pub is_full : Bool
  pub module_id : ℕ
  pub type_id : ℕ

-- `struct value`. `D` is the type `double`; a long is its 64-bit pattern; a table, a closure and a
-- coroutine are the numbers of their objects. FLUFFYVM_TVALUE_LAST tags no value.
pub data Value (D : Type 0) : Type 0 where
  not_present nil : Value D
  double : D → Value D
  long : ℕ → Value D
  string : Str → Value D
  table : ℕ → Value D
  closure : ℕ → Value D
  bool : Bool → Value D
  coroutine : ℕ → Value D
  full_userdata : Userdata → Value D
  light_userdata : Userdata → Value D
  garbage_collectable_userdata : Userdata → Value D

-- What `strtod` reports: it stopped before the end, it set `errno`, or a number.
pub data Strtod (D : Type 0) : Type 0 where
  partial : Strtod D
  errno : ℕ → Strtod D
  number : D → Strtod D

-- The floating-point operations of the machine and of libm, the conversions (`to_int` is that to an int, as the
-- pattern of its 32 bits), printf's "%lf", strtod, and XXH64.
pub record Host (D : Type 0) : Type 0 where
  pub add : D → D → D
  pub sub : D → D → D
  pub mul : D → D → D
  pub div : D → D → D
  pub fmod : D → D → D
  pub pow : D → D → D
  pub equal : D → D → Bool
  pub le : D → D → Bool
  pub of_long : ℤ → D
  pub to_long : D → ℤ
  pub to_int : D → ℕ
  pub floor : D → D
  pub bits : D → ℕ
  pub print : D → List ℕ
  pub strtod : List ℕ → Strtod D
  pub xxh64 : List ℕ → ℕ → ℕ

-- The bytes of a word in memory, low byte first.
unfoldable pub le_bytes : ℕ → ℕ → List ℕ
le_bytes zero w = []
le_bytes (suc n) w = w % 256 ∷ le_bytes n (w / 256)
