-- ===== src/Trees/Emit.antt =====
-- lib/inter/tree.cc: the code of an arithmetic operation.
use wxcc.Base.{
  ℕ, ◌+◌, ◌≤◌, ◌<◌, true, false, Bool-cases, inl, inr, some, List, Bytes, length, length-append,
  ltb, ◌≡◌, refl, arith,
}
use wxcc.Outcome.{ok, fault, overflow}
use wxcc.Types.{CType, binary_op}
use wxcc.Ir.{Ptr, Store, temporary_string}
use wxcc.Ir.Names.{length-decimal, length-decimal_pos}
use wxcc.Ir.Limits.{new_temporary_limit}
use wxcc.Ir.Append.{IsCode, Appends, new_ir-Appends}
use wxcc.Trees.{NodeOp, new_members, Tree, tree, get_type, operand_string}
use wxcc.Trees.Build.{assignment_text, emit_arith, arith_tree}

abbrev pub with_id : Store → ℕ → Store
with_id s n = record s { current_id = n }

length-assignment_text :
    (target left symbol right : Bytes)
    → length (assignment_text target left symbol right)
      ≡ length target + length left + length symbol + length right + 5
length-assignment_text target left symbol right = grind (arith, length-append)

-- With GD_OUTPUT, an arithmetic operator on two operands that have names, which take at most 11 bytes
-- with the operator, appends one instruction to the code while fewer than 99 temporary variables are
-- in use: it assigns the operation to a new temporary variable, which the node keeps.
pub arith_tree-Appends :
    (nop : NodeOp) (symbol : Bytes) (left right : Tree) (left_type right_type ty : CType)
    (l r : Bytes) (s : Store) (front : List Ptr)
    → get_type left ≡ ok left_type
    → get_type right ≡ ok right_type
    → binary_op left_type right_type ≡ ok ty
    → operand_string left ≡ ok l
    → operand_string right ≡ ok r
    → length l + length symbol + length r ≤ 11
    → s.current_id < 99
    → IsCode s front
    → (s' : Store) × (arith_tree true nop symbol left right s
        ≡ ok (tree nop ty left right (record new_members { t = some (s.current_id + 1) }), s'))
      × Appends s front
          (assignment_text (temporary_string (s.current_id + 1)) l symbol r)
          s.fresh
          s'
unfolding arith_tree emit_arith
arith_tree-Appends nop symbol left right left_type right_type ty l r s front lt rt bt ls rs fits
      room c =
    let s1 = with_id s (s.current_id + 1) in
    let text = assignment_text (temporary_string (s.current_id + 1)) l symbol r in
    let (s', e, a) = new_ir-Appends s1 front text (record { linked = c.linked; below = c.below }) in
    let small : ltb s.current_id 99 ≡ true = ground arith in
    let short : ltb (length text) 20 ≡ true = ground (
      arith,
      length-assignment_text (temporary_string (s.current_id + 1)) l symbol r,
      length-decimal (s.current_id + 1),
    ) in
    (
      s',
      rw (lt, rt, bt, new_temporary_limit s, small, ls, rs, short, e) refl,
      record {
        is_current = a.is_current;
        is_code = a.is_code;
        texts = a.texts;
        next_fresh = a.next_fresh;
        lists_kept = a.lists_kept;
        fresh_list_kept = a.fresh_list_kept;
      },
    )

-- With GD_OUTPUT, when the two names take 13 bytes or more with the operator, the instruction is
-- written past its array.
pub arith_tree-overflow :
    (nop : NodeOp) (symbol : Bytes) (left right : Tree) (left_type right_type ty : CType)
    (l r : Bytes) (s : Store)
    → get_type left ≡ ok left_type
    → get_type right ≡ ok right_type
    → binary_op left_type right_type ≡ ok ty
    → operand_string left ≡ ok l
    → operand_string right ≡ ok r
    → 13 ≤ length l + length symbol + length r
    → arith_tree true nop symbol left right s ≡ fault overflow
unfolding arith_tree emit_arith
arith_tree-overflow nop symbol left right left_type right_type ty l r s lt rt bt ls rs long =
    let text = assignment_text (temporary_string (s.current_id + 1)) l symbol r in
    let over : ltb (length text) 20 ≡ false = ground (
      arith,
      length-assignment_text (temporary_string (s.current_id + 1)) l symbol r,
      length-decimal_pos (s.current_id + 1),
    ) in
    elim (Bool-cases (ltb s.current_id 99)) [
      | inl small ↦ rw (lt, rt, bt, new_temporary_limit s, small, ls, rs, over) refl
      | inr big ↦ rw (lt, rt, bt, new_temporary_limit s, big) refl
    ]
