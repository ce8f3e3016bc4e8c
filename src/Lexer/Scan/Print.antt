-- ===== src/Lexer/Scan/Print.antt =====
-- lib/lex/output.cc: what `LexOutput::output` prints for a token. The fmt library is an argument.
pub mod Source
use Prim.Native.String.{String}
use wxcc.Base.{
  ℕ, Option, none, some, List, [], ◌∷◌, ◌++◌, Bytes, codes, equal, ◌==◌, equal_sound, ◌≡◌, ◌≢◌,
  refl, ap, sym, ◌∙◌, Bool-cases, inl, inr, if◌then◌else◌,
}
use wxcc.Lexer.Keywords.Table.{Dictionary, find, keywords}
use wxcc.Lexer.Letter.{reclassify}
use wxcc.Lexer.Letter.Longest.{word_value, keyword_or_ident}
use wxcc.Lexer.Operators.Munch.{spellings}
use wxcc.Lexer.Scan.Signs.{Among}
use wxcc.Token.{
  Keyword, key_auto, key_break, key_case, key_char, key_const, key_continue, key_default, key_do,
  key_double, key_else, key_enum, key_extern, key_float, key_for, key_goto, key_if, key_int,
  key_long, key_register, key_return, key_short, key_signed, key_sizeof, key_static, key_struct,
  key_switch, key_typedef, key_union, key_unsigned, key_volatile, key_while, key_kvoid, Op, op_none,
  op_lognot, op_mod, op_bitxor, op_bitand, op_mult, op_plus, op_minus, op_bitnot, op_bitor, op_div,
  op_question, op_pointer, op_inc, op_dec, op_leftshift, op_rightshift, op_lt, op_gt, op_le, op_ge,
  op_eq, op_ne, op_logand, op_logor, op_leftbrack, op_rightbrack, op_leftsqbrac, op_rightsqbrac,
  op_leftbrace, op_rightbrace, op_comma, op_colon, op_semicolon, op_eppipsis, op_period, op_assign,
  op_alplus, op_alminus, op_almult, op_aldiv, op_almod, op_alleftshift, op_alrightshift,
  op_albitand, op_albitxor, op_albitor, op_sizeof, TokenValue, none_token, key, op, ident, text,
  number, Number, int_con, float_con, Floating,
}

-- The formats of the fmt library: `{:<n}` of a text, `{}` of a `double`, and of an
-- integer that the operator `?:` has made a `double`.
pub record Formats : Type 0 where
  pub left : ℕ → Bytes → Bytes
  pub double : Floating → Bytes
  pub double_of : ℕ → Bytes

-- `dispatchKeywords`, after `buildKeymap`
unfoldable pub dispatch_keywords : Keyword → Bytes
dispatch_keywords key_kvoid = codes "void"
dispatch_keywords key_auto = codes "auto"
dispatch_keywords key_break = codes "break"
dispatch_keywords key_case = codes "case"
dispatch_keywords key_char = codes "char"
dispatch_keywords key_const = codes "const"
dispatch_keywords key_continue = codes "continue"
dispatch_keywords key_default = codes "default"
dispatch_keywords key_do = codes "do"
dispatch_keywords key_double = codes "double"
dispatch_keywords key_else = codes "else"
dispatch_keywords key_enum = codes "enum"
dispatch_keywords key_extern = codes "extern"
dispatch_keywords key_float = codes "float"
dispatch_keywords key_for = codes "for"
dispatch_keywords key_goto = codes "goto"
dispatch_keywords key_if = codes "if"
dispatch_keywords key_int = codes "int"
dispatch_keywords key_long = codes "long"
dispatch_keywords key_register = codes "register"
dispatch_keywords key_return = codes "return"
dispatch_keywords key_short = codes "short"
dispatch_keywords key_signed = codes "signed"
dispatch_keywords key_sizeof = codes "sizeof"
dispatch_keywords key_static = codes "static"
dispatch_keywords key_struct = codes "struct"
dispatch_keywords key_switch = codes "switch"
dispatch_keywords key_typedef = codes "typedef"
dispatch_keywords key_union = codes "union"
dispatch_keywords key_unsigned = codes "unsigned"
dispatch_keywords key_volatile = codes "volatile"
dispatch_keywords key_while = codes "while"

-- The name and the text of an operator in `buildOperators`.
abbrev pub operator_texts : Op → Option (String × String)
operator_texts op_none = none
operator_texts op_lognot = some ("LOGNOT", "!")
operator_texts op_mod = some ("MOD", "%")
operator_texts op_bitxor = some ("BITXOR", "^")
operator_texts op_bitand = some ("BITAND", "&")
operator_texts op_mult = some ("MULT", "*")
operator_texts op_plus = some ("PLUS", "+")
operator_texts op_minus = some ("MINUS", "-")
operator_texts op_bitnot = some ("BITNOT", "~")
operator_texts op_bitor = some ("BITOR", "|")
operator_texts op_div = some ("DIV", "/")
operator_texts op_question = some ("QUESTION", "?")
operator_texts op_pointer = some ("POINTER", "->")
operator_texts op_inc = some ("INC", "++")
operator_texts op_dec = some ("DEC", "--")
operator_texts op_leftshift = some ("LEFTSHIFT", "<<")
operator_texts op_rightshift = some ("RIGHTSHIFT", ">>")
operator_texts op_lt = some ("LT", "<")
operator_texts op_gt = some ("GT", ">")
operator_texts op_le = some ("LE", "<=")
operator_texts op_ge = some ("GE", ">=")
operator_texts op_eq = some ("EQ", "==")
operator_texts op_ne = some ("NE", "!=")
operator_texts op_logand = some ("LOGAND", "&&")
operator_texts op_logor = some ("LOGOR", "||")
operator_texts op_leftbrack = some ("LEFTBRACK", "(")
operator_texts op_rightbrack = some ("RIGHTBRACK", ")")
operator_texts op_leftsqbrac = some ("LEFTSQBRAC", "[")
operator_texts op_rightsqbrac = some ("RIGHTSQBRAC", "]")
operator_texts op_leftbrace = some ("LEFTBRACE", "{")
operator_texts op_rightbrace = some ("RIGHTBRACE", "}")
operator_texts op_comma = some ("COMMA", ",")
operator_texts op_colon = some ("COLON", ":")
operator_texts op_semicolon = some ("SEMICOLON", ";")
operator_texts op_eppipsis = some ("EPPIPSIS", "...")
operator_texts op_period = some ("PERIOD", ".")
operator_texts op_assign = some ("ASSIGN", "=")
operator_texts op_alplus = some ("ALPLUS", "+=")
operator_texts op_alminus = some ("ALMINUS", "-=")
operator_texts op_almult = some ("ALMULT", "*=")
operator_texts op_aldiv = some ("ALDIV", "/=")
operator_texts op_almod = some ("ALMOD", "%=")
operator_texts op_alleftshift = some ("ALLEFTSHIFT", "<<=")
operator_texts op_alrightshift = some ("ALRIGHTSHIFT", ">>=")
operator_texts op_albitand = some ("ALBITAND", "&=")
operator_texts op_albitxor = some ("ALBITXOR", "^=")
operator_texts op_albitor = some ("ALBITOR", "|=")
operator_texts op_sizeof = some ("SIZEOF", "sizeof")

abbrev pub operator_line : Formats → Option (String × String) → Bytes
operator_line f none = []
operator_line f (some (n, c)) = f.left 13 (codes n) ++ b'\t' ∷ codes c

-- `dispatchOperator`, after `buildOperators`
unfoldable pub dispatch_operator : Formats → Op → Bytes
dispatch_operator f o = operator_line f (operator_texts o)

-- `TokenType`; of a token without a type it fails.
unfoldable pub token_type : TokenValue → Option Bytes
token_type none_token = none
token_type (key k) = some (codes "KEYWORD")
token_type (op o) = some (codes "Operator")
token_type (ident x) = some (codes "Identifier")
token_type (text x) = some (codes "String Constant")
token_type (number (int_con t i)) = some (codes "Integer Constant")
token_type (number (float_con t d)) = some (codes "Floating Point Constant")

-- `numType` in the format of a `Number`; for other types it fails.
unfoldable pub num_type : ℕ → Option Bytes
num_type t =
    if t == 0x0011_1000
    then some (codes "float")
    else if t == 0x0011_1010
    then some (codes "double")
    else if t == 0x0011_0101
    then some (codes "unsigned int")
    else if t == 0x0011_0111
    then some (codes "unsigned long")
    else if t == 0x0011_0001
    then some (codes "signed int")
    else if t == 0x0011_0011
    then some (codes "signed long")
    else if t == 0x0011_0103
    then some (codes "char")
    else if t == 0x0011_ffff
    then some (codes "error")
    else none

abbrev pub with_type : Formats → Option Bytes → Bytes → Option Bytes
with_type f none v = none
with_type f (some n) v = some (f.left 13 n ++ b'\t' ∷ v)

-- The format of a `Number`.
unfoldable pub format_number : Formats → Number → Option Bytes
unfolding num_type
format_number f (int_con t i) = with_type f (num_type t) (f.double_of i)
format_number f (float_con t d) = with_type f (num_type t) (f.double d)

-- `TokenValue`
unfoldable pub token_text : Formats → TokenValue → Option Bytes
unfolding dispatch_keywords dispatch_operator format_number
token_text f none_token = none
token_text f (key k) = some (dispatch_keywords k)
token_text f (op o) = some (dispatch_operator f o)
token_text f (ident x) = some x
token_text f (text x) = some x
token_text f (number n) = format_number f n

abbrev pub columns : Formats → Option Bytes → Option Bytes → Option Bytes
columns f (some t) (some v) = some (f.left 20 t ++ b'|' ∷ b' ' ∷ v)
columns f none v = none
columns f (some t) none = none

-- The format of a `Token`.
unfoldable pub format_token : Formats → TokenValue → Option Bytes
unfolding token_type token_text
format_token f v = columns f (token_type v) (token_text f v)
