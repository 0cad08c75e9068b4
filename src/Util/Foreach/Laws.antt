-- ===== src/Util/Foreach/Laws.antt =====
-- The order and the end of `foreach_do_list` in src/util/functional/foreach.c.
use mathlib.Core.List.{reverse}
use fluffy_vm.Prelude.{
  ℕ, zero, suc, ◌<◌, ◌≡◌, refl, arith, Bool, List, [], ◌∷◌, some, ◌==◌, if◌then◌else◌, length,
  Bool-cases, inl, inr, length-reverse,
}
use fluffy_vm.Util.Foreach.{
  ForeachStatus, foreach_ok, foreach_failed, from_list_iterator, foreach_do, list_head, list_tail,
  foreach_do_list, foreach_do_list_direction,
}

module _ {C : Type 0} (consumer : C → ℕ → C × Bool) where
  -- The values in their order, until one is NULL or is refused.
  abbrev pub given : List ℕ → C → C × ForeachStatus
  given [] c = (c, foreach_ok)
  given (v ∷ vs) c =
      let (c', success) = consumer c v in
      let rest = given vs c' in
      if v == 0 then (c, foreach_ok) else if success then rest else (c', foreach_failed)

  foreach_lem :
      (vs : List ℕ) (fuel : ℕ) (c : C)
      → length vs < fuel
      → foreach_do from_list_iterator consumer fuel vs c ≡ some (given vs c)
  unfolding foreach_do from_list_iterator
  foreach_lem vs zero c lt = absurd (omega arith)
  foreach_lem [] (suc fuel) c lt = refl
  foreach_lem (v ∷ vs) (suc fuel) c lt = elim (Bool-cases (v == 0)) [
    | inl e ↦ rw e refl
    | inr e ↦ elim (Bool-cases (consumer c v).1) [
      | inl e' ↦ rw (e, e') (foreach_lem vs fuel (consumer c v).0 (omega arith))
      | inr e' ↦ rw (e, e') refl
    ]
  ]

  -- `foreach_do_list` and `foreach_do_list_direction` end, with one round for each node and one more: the consumer is given the
  -- values of the nodes in their order, or in the reverse order from the tail, each once, until a value is
  -- NULL or the consumer refuses it; the status says whether it refused one.
  pub foreach_do_list_lem :
      (vs : List ℕ) (fuel : ℕ) (c : C)
      → length vs < fuel
      → (foreach_do_list consumer fuel vs c ≡ some (given vs c))
        × (foreach_do_list_direction consumer fuel vs list_head c ≡ some (given vs c))
        × (foreach_do_list_direction consumer fuel vs list_tail c ≡ some (given (reverse vs) c))
  unfolding foreach_do_list foreach_do_list_direction
  foreach_do_list_lem vs fuel c lt =
      let shorter : length (reverse vs) < fuel = rw (length-reverse vs) lt in
      (foreach_lem vs fuel c lt, foreach_lem vs fuel c lt, foreach_lem (reverse vs) fuel c shorter)
