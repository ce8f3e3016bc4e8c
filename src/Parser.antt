-- ===== src/Parser.antt =====
-- includes/parser.h, lib/parser/parser.cc, lib/parser/decl.cc, includes/lex/tools.h: the window of
-- tokens that the parser looks through, and its functions for qualifiers and pointers.
--
-- The scanner is the list of the tokens that `Lex::getNextToken` is still to return; at its end it
-- returns tokens without a type.
pub mod Stream
pub mod Pointers
pub mod Levels
pub mod Keywords
pub mod Declarators
use wxcc.Base.{ℕ, zero, suc, Bool, true, false, not, ◌==◌, ◌&&◌, ◌||◌, List, [], ◌∷◌, if◌then◌else◌}
use wxcc.Outcome.{
  Outcome, ok, fault, assertion, freed, wild_pointer, null_dereference, exited, out_of_fuel, ◌>>=◌,
}
use wxcc.Token.{
  Keyword, key_const, key_volatile, Op, op_none, op_lognot, op_mod, op_bitxor, op_bitand, op_mult,
  op_plus, op_minus, op_bitnot, op_bitor, op_div, op_question, op_pointer, op_inc, op_dec,
  op_leftshift, op_rightshift, op_lt, op_gt, op_le, op_ge, op_eq, op_ne, op_logand, op_logor,
  op_leftbrack, op_rightbrack, op_leftsqbrac, op_rightsqbrac, op_leftbrace, op_rightbrace, op_comma,
  op_colon, op_semicolon, op_eppipsis, op_period, op_assign, op_alplus, op_alminus, op_almult,
  op_aldiv, op_almod, op_alleftshift, op_alrightshift, op_albitand, op_albitxor, op_albitor,
  op_sizeof, TokenValue, none_token, key, op, ident, text, number, Token,
}
use wxcc.Types.{TypeOp, to_const, to_volatile, to_pointer, CType, plain_type}

-- A member of type `Token`. Assigning a null pointer clears only its type;
-- `no_token` is what the scanner returns at its end. The assignment of tokens copies the pointers to
-- texts and numbers, and the token that `getNextToken` returned gives that memory back when it is
-- destroyed: what a member points to has been freed, and only the type, the keyword and the operator
-- can be read.
pub data Slot : Type 0 where
  held cleared : Token → Slot
  no_token : Slot

abbrev pub is_none : TokenValue → Bool
is_none none_token = true
is_none _ = false

-- The copy constructor `Token::Token(const Token &)` on a value of a member: it copies the text or
-- the number behind the pointer.
unfoldable pub copy_value : TokenValue → Outcome TokenValue
copy_value none_token = ok none_token
copy_value (key k) = ok (key k)
copy_value (op o) = ok (op o)
copy_value (ident x) = fault freed
copy_value (text x) = fault freed
copy_value (number n) = fault freed

unfoldable pub copy_token : Slot → Outcome TokenValue
unfolding copy_value
copy_token (held t) = copy_value t.token_value
copy_token (cleared t) = ok none_token
copy_token no_token = ok none_token

-- `numVal->val.i_value` of a member.
abbrev pub read_int_value : TokenValue → Outcome ℕ
read_int_value (number n) = fault freed
read_int_value _ = fault wild_pointer

unfoldable pub read_int : Slot → Outcome ℕ
read_int (held t) = read_int_value t.token_value
read_int (cleared t) = read_int_value t.token_value
read_int no_token = fault null_dereference

-- `Token::operator bool`
abbrev pub is_token : Slot → Bool
is_token (held t) = not (is_none t.token_value)
is_token (cleared t) = false
is_token no_token = false

-- `Token::operator=(nullptr_t)`
abbrev pub clear : Slot → Slot
clear (held t) = cleared t
clear (cleared t) = cleared t
clear no_token = no_token

pub record Window : Type 0 where
  pub cur : Slot
  pub pre : Slot
  pub prepre : Slot
  pub is_finish : Bool
  pub source : List Token

-- `Lex::getNextToken`
abbrev pub get_next_token : Window → Window
get_next_token w = elim w.source [
  | [] ↦ record w { cur = no_token }
  | t ∷ rest ↦ record w { cur = held t; source = rest }
]

-- `Parser::next`
unfoldable pub next : Window → Outcome Window
next w =
    if is_token w.prepre
    then ok (record w { pre = w.prepre; cur = w.prepre; prepre = clear w.prepre })
    else if is_token w.pre
    then ok (record w { cur = w.pre; pre = clear w.pre })
    else (let w' = get_next_token w in
        if not (is_token w'.cur) && not w.is_finish then fault exited else ok w')

-- `Parser::pushBack`
unfoldable pub push_back : Window → Outcome Window
push_back w =
    if not (is_token w.pre)
    then ok (record w { pre = w.cur; cur = clear w.cur })
    else if not (is_token w.prepre)
    then ok (record w { prepre = w.pre; pre = w.cur; cur = clear w.cur })
    else fault assertion

-- `OP`
abbrev pub op_code : Op → ℕ
op_code op_none = 0x4_0000
op_code op_lognot = 0x4_0001
op_code op_mod = 0x4_0002
op_code op_bitxor = 0x4_0003
op_code op_bitand = 0x4_0004
op_code op_mult = 0x4_0005
op_code op_plus = 0x4_0006
op_code op_minus = 0x4_0007
op_code op_bitnot = 0x4_0008
op_code op_bitor = 0x4_0009
op_code op_div = 0x4_000A
op_code op_question = 0x4_000B
op_code op_pointer = 0x4_000C
op_code op_inc = 0x4_000D
op_code op_dec = 0x4_000E
op_code op_leftshift = 0x4_000F
op_code op_rightshift = 0x4_0010
op_code op_lt = 0x4_0011
op_code op_gt = 0x4_0012
op_code op_le = 0x4_0013
op_code op_ge = 0x4_0014
op_code op_eq = 0x4_0015
op_code op_ne = 0x4_0016
op_code op_logand = 0x4_0017
op_code op_logor = 0x4_0018
op_code op_leftbrack = 0x4_0019
op_code op_rightbrack = 0x4_001A
op_code op_leftsqbrac = 0x4_001B
op_code op_rightsqbrac = 0x4_001C
op_code op_leftbrace = 0x4_001D
op_code op_rightbrace = 0x4_001E
op_code op_comma = 0x4_001F
op_code op_colon = 0x4_0020
op_code op_semicolon = 0x4_0021
op_code op_eppipsis = 0x4_0022
op_code op_period = 0x4_0023
op_code op_assign = 0x4_1000
op_code op_alplus = 0x4_1001
op_code op_alminus = 0x4_1002
op_code op_almult = 0x4_1003
op_code op_aldiv = 0x4_1004
op_code op_almod = 0x4_1005
op_code op_alleftshift = 0x4_1006
op_code op_alrightshift = 0x4_1007
op_code op_albitand = 0x4_1008
op_code op_albitxor = 0x4_1009
op_code op_albitor = 0x4_100A
op_code op_sizeof = 0x4_100B

-- `tools::matchOP`
abbrev pub match_op_value : TokenValue → Op → Bool
match_op_value (op o) o' = op_code o == op_code o'
match_op_value _ o' = false

abbrev pub match_op : Slot → Op → Bool
match_op (held t) o = match_op_value t.token_value o
match_op (cleared t) o = false
match_op no_token o = false

-- `tools::matchQualifier`
abbrev pub qualifier_value : TokenValue → Bool
qualifier_value (key key_const) = true
qualifier_value (key key_volatile) = true
qualifier_value _ = false

abbrev pub match_qualifier : Slot → Bool
match_qualifier (held t) = qualifier_value t.token_value
match_qualifier (cleared t) = false
match_qualifier no_token = false

-- The operator of a qualifier that has been matched.
abbrev pub qualifier_op_value : TokenValue → TypeOp
qualifier_op_value (key key_const) = to_const
qualifier_op_value _ = to_volatile

abbrev pub qualifier_op : Slot → TypeOp
qualifier_op (held t) = qualifier_op_value t.token_value
qualifier_op (cleared t) = to_volatile
qualifier_op no_token = to_volatile

-- `Parser::c_parser_type_qualifier_list`
unfoldable pub type_qualifier_list : ℕ → CType → Window → Outcome (CType × Window)
type_qualifier_list zero ty w = fault out_of_fuel
type_qualifier_list (suc fuel) ty w = do
  w' ← next w
  if match_qualifier w'.cur
      then type_qualifier_list fuel (plain_type (qualifier_op w'.cur) ty) w'
      else (do w'' ← push_back w'; ok (ty, w''))

-- `Parser::c_parser_pointer`
unfoldable pub pointer : ℕ → CType → Window → Outcome (CType × Window)
pointer zero ty w = fault out_of_fuel
pointer (suc fuel) ty w = do
  w' ← next w
  if match_op w'.cur op_mult
      then (do
        (ty', w'') ← type_qualifier_list fuel (plain_type to_pointer ty) w'
        pointer fuel ty' w'')
      else if match_qualifier w'.cur
      then (do w'' ← push_back w'; type_qualifier_list fuel ty w'')
      else (do w'' ← push_back w'; ok (ty, w''))
