-- ===== src/Types/Operands.antt =====
-- lib/semantic/type.cc: the type of an expression with two operands.
use wxcc.Base.{Bool, false, ◌||◌, ◌≡◌, inl, inr, refl, ◌≢◌, Bool-cases, if◌then◌else◌}
use wxcc.Outcome.{ok, fault, null_dereference}
use wxcc.Types.{
  to_const, to_volatile, ◌is◌, CType, null_type, type, int_type, walk_bases, binary_op,
}

walk_bases-fault : (ty : CType) → walk_bases ty ≡ fault null_dereference
unfolding walk_bases
walk_bases-fault null_type = refl
walk_bases-fault (type op base u size align sym) = walk_bases-fault base

abbrev pub is_qualified : CType → Bool
is_qualified null_type = false
is_qualified (type op base u size align sym) = op is to_const || op is to_volatile

-- `binaryOp` on operands that have types gives int, whatever they are, unless the type of the left
-- one is qualified: then its loop never stops before it follows a null pointer.
pub binary_op-int :
    (left right : CType)
    → left ≢ null_type
    → binary_op left right ≡ (if is_qualified left then fault null_dereference else ok int_type)
unfolding binary_op
binary_op-int null_type right h = absurd (h refl)
binary_op-int (type op base u size align sym) right h =
    elim (Bool-cases (op is to_const || op is to_volatile)) [
      | inl qualified ↦ rw qualified (walk_bases-fault (type op base u size align sym))
      | inr plain ↦ rw plain refl
    ]
