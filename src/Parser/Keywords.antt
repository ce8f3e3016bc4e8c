-- ===== src/Parser/Keywords.antt =====
-- includes/lex/constants.h, includes/lex/tools.h, lib/parser/parser.cc: the classes of keywords, and
-- the type operators of those that name types.
use Prim.Native.Nat.{bit_and}
use wxcc.Base.{ℕ, Bool, true, false, not, ◌&&◌, ◌||◌, Option, none, some, ◌==◌, ◌≡◌, refl}
use wxcc.Token.{
  Keyword, key_auto, key_extern, key_register, key_static, key_typedef, key_char, key_float,
  key_int, key_long, key_union, key_enum, key_signed, key_short, key_unsigned, key_struct,
  key_double, key_volatile, key_const, key_continue, key_default, key_do, key_break, key_case,
  key_else, key_for, key_goto, key_if, key_return, key_sizeof, key_switch, key_kvoid, key_while,
}
use wxcc.Types.{
  TypeOp, to_char, to_const, to_double, to_float, to_int, to_short, to_signed, to_unsigned, to_void,
  to_volatile,
}

-- `KEYWORD`
abbrev pub keyword_code : Keyword → ℕ
keyword_code key_auto = 0x2_1001
keyword_code key_extern = 0x2_1002
keyword_code key_register = 0x2_1003
keyword_code key_static = 0x2_1004
keyword_code key_typedef = 0x2_1005
keyword_code key_char = 0x2_0101
keyword_code key_float = 0x2_0102
keyword_code key_int = 0x2_0103
keyword_code key_long = 0x2_0104
keyword_code key_union = 0x2_0105
keyword_code key_enum = 0x2_0106
keyword_code key_signed = 0x2_0107
keyword_code key_short = 0x2_0108
keyword_code key_unsigned = 0x2_0109
keyword_code key_struct = 0x2_010A
keyword_code key_double = 0x2_010B
keyword_code key_volatile = 0x2_0011
keyword_code key_const = 0x2_0012
keyword_code key_continue = 0x2_0001
keyword_code key_default = 0x2_0002
keyword_code key_do = 0x2_0003
keyword_code key_break = 0x2_0004
keyword_code key_case = 0x2_0005
keyword_code key_else = 0x2_0006
keyword_code key_for = 0x2_0007
keyword_code key_goto = 0x2_0008
keyword_code key_if = 0x2_0009
keyword_code key_return = 0x2_000A
keyword_code key_sizeof = 0x2_000B
keyword_code key_switch = 0x2_000C
keyword_code key_kvoid = 0x2_000D
keyword_code key_while = 0x2_000E

-- `tools::isBaseType` on a keyword; the scanner makes no KEY_TVOID.
unfoldable pub is_base_type : Keyword → Bool
is_base_type k =
    bit_and (keyword_code k) 0x0002_0100 == 0x0002_0100 || keyword_code k == keyword_code key_kvoid

-- `tools::matchQualifier` on a keyword.
abbrev pub is_qualifier : Keyword → Bool
is_qualifier k =
    keyword_code k == keyword_code key_const || keyword_code k == keyword_code key_volatile

-- `Parser::key2to`
unfoldable pub key2to : Keyword → Option TypeOp
key2to key_char = some to_char
key2to key_float = some to_float
key2to key_int = some to_int
key2to key_signed = some to_signed
key2to key_short = some to_short
key2to key_unsigned = some to_unsigned
key2to key_double = some to_double
key2to key_volatile = some to_volatile
key2to key_const = some to_const
key2to key_kvoid = some to_void
key2to _ = none

abbrev pub is_some : {A : Type 0} → Option A → Bool
is_some (some a) = true
is_some none = false

-- The type keywords without a type operator.
abbrev pub lacks_operator : Keyword → Bool
lacks_operator key_long = true
lacks_operator key_union = true
lacks_operator key_enum = true
lacks_operator key_struct = true
lacks_operator _ = false

-- The keywords with a type operator are the qualifiers and the type keywords but long, union, enum
-- and struct.
pub key2to-is_base_type :
    (k : Keyword)
    → is_some (key2to k) ≡ (is_qualifier k || is_base_type k && not (lacks_operator k))
unfolding key2to is_base_type
key2to-is_base_type key_auto = refl
key2to-is_base_type key_extern = refl
key2to-is_base_type key_register = refl
key2to-is_base_type key_static = refl
key2to-is_base_type key_typedef = refl
key2to-is_base_type key_char = refl
key2to-is_base_type key_float = refl
key2to-is_base_type key_int = refl
key2to-is_base_type key_long = refl
key2to-is_base_type key_union = refl
key2to-is_base_type key_enum = refl
key2to-is_base_type key_signed = refl
key2to-is_base_type key_short = refl
key2to-is_base_type key_unsigned = refl
key2to-is_base_type key_struct = refl
key2to-is_base_type key_double = refl
key2to-is_base_type key_volatile = refl
key2to-is_base_type key_const = refl
key2to-is_base_type key_continue = refl
key2to-is_base_type key_default = refl
key2to-is_base_type key_do = refl
key2to-is_base_type key_break = refl
key2to-is_base_type key_case = refl
key2to-is_base_type key_else = refl
key2to-is_base_type key_for = refl
key2to-is_base_type key_goto = refl
key2to-is_base_type key_if = refl
key2to-is_base_type key_return = refl
key2to-is_base_type key_sizeof = refl
key2to-is_base_type key_switch = refl
key2to-is_base_type key_kvoid = refl
key2to-is_base_type key_while = refl
