-- ===== src/Stack/Api.antt =====
-- What a client can ask of the stack of src/stack.c. The two forms of `stack_pop` are told apart by
-- whether the caller passes a place for the result.

pub data Op (A : Type 0) : Type 0 where
  call_push : A → Op A
  call_pop call_pop_discard call_peek : Op A
