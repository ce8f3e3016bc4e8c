-- ===== src/Types.antt =====
-- includes/type.h, lib/semantic/type.cc: `Type` with its constructor, and the base types. A null
-- pointer to a type is `null_type`.
pub mod Check
pub mod Operands
use wxcc.Base.{
  ℕ, ◌*◌, ◌%◌, ◌^◌, Bool, true, false, Option, none, some, Bytes, ◌||◌, ◌==◌, if◌then◌else◌,
}
use wxcc.Outcome.{Outcome, ok, fault, null_dereference, ◌>>=◌}

-- `TYPE_OPERATOR`; 0, which is none of its constants, is what a map gives for a key that it lacks.
pub data TypeOp : Type 0 where
  to_void to_char to_int to_long to_short to_float to_double : TypeOp
  to_struct to_union to_array to_enum to_pointer to_function : TypeOp
  to_const to_volatile to_signed to_unsigned to_funcpara to_unset : TypeOp

abbrev pub code : TypeOp → ℕ
code to_void = 0x0100_0000
code to_char = 0x0100_0001
code to_int = 0x0100_0012
code to_long = 0x0100_0013
code to_short = 0x0100_0014
code to_float = 0x0100_0015
code to_double = 0x0100_0016
code to_struct = 0x0100_0101
code to_union = 0x0100_0102
code to_array = 0x0100_0103
code to_enum = 0x0100_0104
code to_pointer = 0x0100_0200
code to_function = 0x0100_0300
code to_const = 0x0100_4001
code to_volatile = 0x0100_4002
code to_signed = 0x0100_5001
code to_unsigned = 0x0100_5002
code to_funcpara = 0x0100_1111
code to_unset = 0

infix 50 ◌is◌
abbrev pub ◌is◌ : TypeOp → TypeOp → Bool
a is b = code a == code b

-- The union `u` holds the number of elements of an array, or a list of parameters, which is null
-- for all types but functions and parameters. `sym` is the name of a parameter's symbol.
mutual
  pub data CType : Type 0 where
    null_type : CType
    type : TypeOp → CType → Extra → (size align : ℕ) → (sym : Option Bytes) → CType

  pub data Extra : Type 0 where
    elements : ℕ → Extra
    para_list : CType → Extra

abbrev pub no_limit : ℕ
no_limit = 0x7fff_ffff

-- `getSize`, `getTYOP` and `getBaseType` read through the pointer.
abbrev pub get_size : CType → Outcome ℕ
get_size null_type = fault null_dereference
get_size (type op base u size align sym) = ok size

abbrev pub get_tyop : CType → Outcome TypeOp
get_tyop null_type = fault null_dereference
get_tyop (type op base u size align sym) = ok op

abbrev pub get_base_type : CType → Outcome CType
get_base_type null_type = fault null_dereference
get_base_type (type op base u size align sym) = ok base

-- `Type::Type`, with all its arguments. The size of an array is an `int`, a bit pattern.
unfoldable pub make_type :
    TypeOp
    → CType
    → (arr_els : ℕ) → (list : CType) → (size align : ℕ) → Option Bytes
    → Outcome CType
make_type to_char base els list size align sym =
    ok (type to_char base (para_list null_type) 1 align sym)
make_type to_double base els list size align sym =
    ok (type to_double base (para_list null_type) 4 align sym)
make_type to_array null_type els list size align sym = fault null_dereference
make_type to_array (type op base u n a s) els list size align sym =
    ok (type to_array (type op base u n a s) (elements els) (els * n % 2 ^ 32) align sym)
make_type to_function base els list size align sym =
    ok (type to_function base (para_list list) no_limit align sym)
make_type op base els list size align sym = ok (type op base (para_list null_type) size align sym)

-- `new Type(op, base)` for an operator without a case of its own: its size is that of an `int`.
abbrev pub plain_type : TypeOp → CType → CType
plain_type op base = type op base (para_list null_type) 4 4 none

-- `NS_BASE_TYPE::InitBaseTypes`
abbrev pub char_type : CType
char_type = type to_char null_type (para_list null_type) 1 4 none

abbrev pub uchar_type : CType
uchar_type = plain_type to_unsigned char_type

abbrev pub schar_type : CType
schar_type = plain_type to_signed char_type

abbrev pub short_type : CType
short_type = plain_type to_short null_type

abbrev pub ushort_type : CType
ushort_type = char_type

abbrev pub int_type : CType
int_type = plain_type to_int null_type

abbrev pub uint_type : CType
uint_type = plain_type to_unsigned int_type

abbrev pub long_type : CType
long_type = plain_type to_long null_type

abbrev pub ulong_type : CType
ulong_type = plain_type to_unsigned long_type

abbrev pub float_type : CType
float_type = plain_type to_float null_type

abbrev pub double_type : CType
double_type = plain_type to_double null_type

abbrev pub void_type : CType
void_type = plain_type to_void null_type

abbrev pub pv_type : CType
pv_type = plain_type to_pointer void_type

-- The loops of `Type::binaryOp`: their test stays true, and each round follows one base type.
unfoldable pub walk_bases : CType → Outcome CType
walk_bases null_type = fault null_dereference
walk_bases (type op base u size align sym) = walk_bases base

-- `Type::binaryOp`, the type of an expression with two operands; the type of the right one is not
-- read.
unfoldable pub binary_op : CType → CType → Outcome CType
unfolding walk_bases
binary_op left right = do
  op ← get_tyop left
  if op is to_const || op is to_volatile then walk_bases left else ok int_type
