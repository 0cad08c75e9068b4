-- ===== src/Value/Error.antt =====
-- Error messages: FLUFFYVM_STATIC_STRINGS of src/fluffyvm.h, and the formatted ones with their
-- arguments. A formatted message is kept as the format and its arguments.
use fluffy_vm.Prelude.{ℕ}
use fluffy_vm.Prelude.Int.{ℤ}
use fluffy_vm.Value.{Value}

pub data StaticString : Type 0 where
  out_of_memory out_of_memory_while_an_error_occured strtod_did_not_process_all_the_data :
      StaticString
  typenames_nil typenames_string typenames_double_num typenames_long_num : StaticString
  typenames_table typenames_closure typenames_light_userdata : StaticString
  typenames_full_userdata typenames_garbage_collectable_userdata : StaticString
  typenames_bool typenames_coroutine : StaticString
  invalid_capacity bad_key : StaticString
  cannot_resume_dead_coroutine cannot_resume_running_coroutine : StaticString
  cannot_suspend_top_level_coroutine : StaticString
  stack_overflow stack_underflow not_in_coroutine : StaticString
  attempt_to_call_nil_value invalid_stack_index bool_true bool_false : StaticString
  native_function_disabled_yielding : StaticString
  protobuf_failed_to_unpack_data unsupported_bytecode invalid_bytecode : StaticString
  pthread_create_error : StaticString
  attempt_to_xmove_on_running_coroutine attempt_to_xmove_on_dead_coroutine : StaticString

-- The operator that the message of `mathCommon` names.
pub data MathOp : Type 0 where
  op_add op_sub op_mul op_div op_mod op_pow op_is_less : MathOp

pub data Err (D : Type 0) : Type 0 where
  static : StaticString → Err D
  index_of : StaticString → Err D
  call_of : StaticString → Err D
  math_of : MathOp → StaticString → StaticString → Err D
  forward_jump : ℕ → ℕ → Err D
  backward_jump : ℕ → Err D
  illegal_instruction : ℕ → Err D
  strtod_errno : ℕ → Err D
  expected_positive : ℤ → Err D
  invalid_nresults negative_nargs : ℤ → Err D
  expected_number : StaticString → Err D
  main_function_missing : Err D
  invalid_constant_index invalid_prototype_index : ℤ → ℕ → Err D
  -- a value that Lua code or a C function throws
  thrown : Value D → Err D
  -- a failure is reported and no message is set
  unset : Err D
