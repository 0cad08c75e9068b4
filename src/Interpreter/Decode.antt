-- ===== src/Interpreter/Decode.antt =====
-- The instruction word of src/bytecode.h, its `decode` and its condition in src/interpreter.c, and the
-- opcodes of src/opcodes.h.
use fluffy_vm.Prelude.{
  ℕ, ◌+◌, ◌*◌, ◌/◌, ◌%◌, ◌^◌, ◌<◌, ◌≡◌, refl, arith, Bool, true, false, not, ◌&&◌, ◌==◌, ltb,
  if◌then◌else◌, bit_and, bit_xor, Option, List, [], ◌∷◌, get_elem?,
}
use fluffy_vm.Prelude.Bits.{holds_under, holds_under_at}

-- The fields in the order of the word, high bits first. D to I of the source are fetched for opcodes
-- with more than three fields, and there are none.
pub record Instruction : Type 0 where
  pub opcode : ℕ
  pub cond_flags : ℕ
  pub field_a : ℕ
  pub field_b : ℕ
  pub field_c : ℕ

unfoldable pub decode : ℕ → Instruction
decode instruction = record {
  opcode = instruction / 2 ^ 56 % 256;
  cond_flags = instruction / 2 ^ 48 % 256;
  field_a = instruction / 2 ^ 32 % 2 ^ 16;
  field_b = instruction / 2 ^ 16 % 2 ^ 16;
  field_c = instruction % 2 ^ 16;
}

-- The opcodes of FLUFFYVM_OPCODES, in the order of their numbers.
pub data Opcode : Type 0 where
  op_nop op_mov op_table_get op_table_set op_call op_stack_push op_stack_pop op_get_constant :
      Opcode
  op_return op_extra op_stack_gettop op_load_prototype op_add op_sub op_mul op_div op_mod : Opcode
  op_pow op_jmp_forward op_jmp_backward op_cmp : Opcode

abbrev opcodes : List Opcode
opcodes =
    op_nop ∷ op_mov ∷ op_table_get ∷ op_table_set ∷ op_call ∷ op_stack_push ∷ op_stack_pop
    ∷ op_get_constant ∷ op_return ∷ op_extra ∷ op_stack_gettop ∷ op_load_prototype ∷ op_add ∷ op_sub
    ∷ op_mul ∷ op_div ∷ op_mod ∷ op_pow ∷ op_jmp_forward ∷ op_jmp_backward ∷ op_cmp ∷ []

-- `ins.opcode < FLUFFYVM_OPCODE_LAST`
unfoldable pub opcode_of : ℕ → Option Opcode
opcode_of n = get_elem? opcodes n

-- `instructionFieldUsed`
unfoldable pub fields_used : Opcode → ℕ
fields_used op_nop = 0
fields_used op_mov = 2
fields_used op_table_get = 3
fields_used op_table_set = 3
fields_used op_call = 3
fields_used op_stack_push = 1
fields_used op_stack_pop = 1
fields_used op_get_constant = 2
fields_used op_return = 2
fields_used op_extra = 3
fields_used op_stack_gettop = 1
fields_used op_load_prototype = 2
fields_used op_add = 3
fields_used op_sub = 3
fields_used op_mul = 3
fields_used op_div = 3
fields_used op_mod = 3
fields_used op_pow = 3
fields_used op_jmp_forward = 1
fields_used op_jmp_backward = 1
fields_used op_cmp = 2

-- The words that an instruction takes.
unfoldable pub increment_count : Opcode → ℕ
unfolding fields_used
increment_count op =
    let n = fields_used op / 3 + (if ltb 0 (fields_used op % 3) then 1 else 0) in
    if n == 0 then 1 else n

-- `ins.condFlags & 0xF0 >> 4`, where `>>` binds first.
abbrev pub cond_flags_mask : ℕ → ℕ
cond_flags_mask cond_flags = bit_and cond_flags 15

-- `((~(flagRegister ^ condFlags)) & condFlagsMask) == 0 && condFlagsMask`, over the masked values; the
-- complement of a number below 16 is taken in four bits, since the mask has no others.
unfoldable pub is_skipped : ℕ → ℕ → Bool
is_skipped cond_flags flag_register =
    let mask = cond_flags_mask cond_flags in
    let pattern = bit_and cond_flags mask in
    let flags = bit_and flag_register mask in
    bit_and (bit_xor (bit_xor flags pattern) 15) mask == 0 && not (mask == 0)

-- The word with the given fields, as an assembler writes it.
abbrev pub encode : Instruction → ℕ
encode i =
    i.opcode * 2 ^ 56 + i.cond_flags * 2 ^ 48 + i.field_a * 2 ^ 32 + i.field_b * 2 ^ 16 + i.field_c

-- Decoding a word that was put together from fields in their ranges gives the fields back.
pub decode-encode :
    (i : Instruction)
    → i.opcode < 256
    → i.cond_flags < 256
    → i.field_a < 2 ^ 16
    → i.field_b < 2 ^ 16
    → i.field_c < 2 ^ 16
    → decode (encode i) ≡ i
unfolding decode
decode-encode i ho hf ha hb hc = ground arith

-- Every instruction takes one word.
pub increment_count-eq-one : (op : Opcode) → increment_count op ≡ 1
unfolding increment_count
increment_count-eq-one op_nop = refl
increment_count-eq-one _ = refl

agrees : Bool → Bool → Bool
agrees true b = b
agrees false b = not b

bool_eq : (a b : Bool) → agrees a b ≡ true → a ≡ b
unfolding agrees
bool_eq a b h = ground arith

skip_table :
    holds_under
      (λ flags.
        holds_under
          (λ byte.
            agrees
              (is_skipped byte flags)
              (not (bit_and byte 15 == 0) && bit_and flags (bit_and byte 15) == 0))
          256)
      4
    ≡ true
unfolding is_skipped agrees holds_under
skip_table = refl

-- For a condition byte and a flag register with only the EQUAL and LESS bits, an instruction is skipped
-- exactly when its low four bits ask for flags and none of those is set: the high four bits, where
-- the mask was meant to be, are not looked at.
pub is_skipped_lem :
    (cond_flags flag_register : ℕ)
    → cond_flags < 256
    → flag_register < 4
    → is_skipped cond_flags flag_register
      ≡ (not (bit_and cond_flags 15 == 0) && bit_and flag_register (bit_and cond_flags 15) == 0)
unfolding is_skipped
is_skipped_lem c f hc hf = bool_eq _ _ (holds_under_at _ c hc (holds_under_at _ f hf skip_table))
