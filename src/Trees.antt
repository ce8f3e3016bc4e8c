-- ===== src/Trees.antt =====
-- includes/tree.h, lib/inter/tree.cc: the nodes of expression trees, and the tests and members that
-- their constructors read, without the members that nothing reads. Trees.Build has the constructors.
pub mod Build
pub mod Conditions
pub mod Result
pub mod Branch
pub mod Emit
pub mod Labels
pub mod Joined
pub mod Runs
pub mod Logic
use wxcc.Base.{
  ℕ, ◌+◌, ◌-◌, ◌^◌, Bool, true, false, Option, none, some, Bytes, codes, ◌∷◌, ◌++◌, ltb, ◌||◌,
  if◌then◌else◌,
}
use wxcc.Outcome.{Outcome, ok, fault, null_dereference, uninitialised}
use wxcc.Types.{CType}
use wxcc.Ir.{Ptr, Store, Cmd, temporary_string}
use wxcc.Ir.Names.{decimal}

-- `Node_OP`
pub data NodeOp : Type 0 where
  nop_add nop_mul nop_ne nop_le nop_ge nop_shl nop_sub nop_div nop_eq nop_less : NodeOp
  nop_great nop_shr nop_land nop_xor nop_neg nop_lea nop_lor nop_not nop_band : NodeOp
  nop_bor nop_mod nop_cast nop_indr nop_cond nop_cnst nop_arg nop_call nop_jmp : NodeOp
  nop_asgn nop_id : NodeOp

-- The union `x`.
pub data Value : Type 0 where
  i_val : ℕ → Value
  string : Bytes → Value

-- The members that a node gets after its constructor. `t` is null, or a temporary variable, which is
-- its number; the others are `none` until they are set.
pub record Members : Type 0 where
  pub x : Value
  pub t : Option ℕ
  pub tree_string : Option Bytes
  pub codebegin : Option Ptr
  pub true_list : Option ℕ
  pub false_list : Option ℕ

-- The members behind the constructor `Tree::Tree`.
abbrev pub new_members : Members
new_members = record {
  x = i_val 0;
  t = none;
  tree_string = none;
  codebegin = none;
  true_list = none;
  false_list = none;
}

-- A pointer to a `Tree`: its operator, type and operands.
pub data Tree : Type 0 where
  null_tree : Tree
  tree : NodeOp → CType → (left right : Tree) → Members → Tree

abbrev pub members : Tree → Outcome Members
members null_tree = fault null_dereference
members (tree op ty left right m) = ok m

abbrev pub get_type : Tree → Outcome CType
get_type null_tree = fault null_dereference
get_type (tree op ty left right m) = ok ty

abbrev pub get_nop : Tree → Outcome NodeOp
get_nop null_tree = fault null_dereference
get_nop (tree op ty left right m) = ok op

-- A member that is used.
abbrev pub is_set : {A : Type 0} → Option A → Outcome A
is_set none = fault uninitialised
is_set (some a) = ok a

abbrev pub lift : {A : Type 0} → Outcome A → Cmd A
lift (ok a) s = ok (a, s)
lift (fault e) s = fault e

-- `Tree::toString`
abbrev pub to_string : Tree → Outcome Bytes
to_string null_tree = fault null_dereference
to_string (tree op ty left right m) = is_set m.tree_string

-- `Tree::tmpString`
abbrev pub tmp_string : Tree → Outcome Bytes
tmp_string null_tree = fault null_dereference
tmp_string (tree op ty left right m) = elim m.t [
  | none ↦ fault null_dereference
  | some n ↦ ok (temporary_string n)
]

-- The name of an operand: that of its temporary variable, or its own.
abbrev pub operand_string : Tree → Outcome Bytes
operand_string null_tree = fault null_dereference
operand_string (tree op ty left right m) = elim m.t [
  | none ↦ is_set m.tree_string
  | some n ↦ ok (temporary_string n)
]

-- `Tree::isCmpTree`, on the operator.
abbrev pub is_cmp : NodeOp → Bool
is_cmp nop_eq = true
is_cmp nop_ne = true
is_cmp nop_le = true
is_cmp nop_ge = true
is_cmp nop_less = true
is_cmp nop_great = true
is_cmp _ = false

-- `Tree::isLogTree`, on the operator.
abbrev pub is_log : NodeOp → Bool
is_log nop_land = true
is_log nop_lor = true
is_log _ = false

-- `%d` of the bits of an `int`.
abbrev pub int_string : ℕ → Bytes
int_string i = if ltb i (2 ^ 31) then decimal i else b'-' ∷ decimal (2 ^ 32 - i)
