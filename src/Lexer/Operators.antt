-- ===== src/Lexer/Operators.antt =====
-- lib/lex/lex.cc: `Lex::operators` and `Lex::parseOperator`. The first byte is read already.
pub mod Munch
pub mod Overread
use wxcc.Base.{ℕ, Bool, true, false, Option, none, some, List, [], ◌∷◌, ◌==◌, if◌then◌else◌}
use wxcc.Input.{get_char, MemorySource, next, position}
use wxcc.Lexer.{back}
use wxcc.Token.{
  Op, op_none, op_lognot, op_mod, op_bitxor, op_bitand, op_mult, op_plus, op_minus, op_bitnot,
  op_bitor, op_div, op_question, op_pointer, op_inc, op_dec, op_leftshift, op_rightshift, op_lt,
  op_gt, op_le, op_ge, op_eq, op_ne, op_logand, op_logor, op_leftbrack, op_rightbrack,
  op_leftsqbrac, op_rightsqbrac, op_leftbrace, op_rightbrace, op_comma, op_colon, op_semicolon,
  op_eppipsis, op_period, op_assign, op_alplus, op_alminus, op_almult, op_aldiv, op_almod,
  op_alleftshift, op_alrightshift, op_albitand, op_albitxor, op_albitor, op, Token,
}

-- The second bytes that a `case` tests for, with their operators.
abbrev pub Seconds : Type 0
Seconds = List (ℕ × Op)

unfoldable pub find_second : Seconds → ℕ → Option Op
find_second [] c = none
find_second ((x, o) ∷ m) c = if c == x then some o else find_second m c

-- What the `case` does with the second byte read.
abbrev pub after_second : Option Op → Op → MemorySource → Op × MemorySource
after_second (some o') o s = (o', s)
after_second none o s = (o, back s)

-- A `case` that reads a second byte and gives it back in its default branch.
unfoldable pub second_or_back : Seconds → Op → MemorySource → Op × MemorySource
second_or_back m o s = let (c, s') = next get_char s in after_second (find_second m c) o s'

abbrev pub bang_seconds : Seconds
bang_seconds = (b'=', op_ne) ∷ []

abbrev pub percent_seconds : Seconds
percent_seconds = (b'=', op_almod) ∷ []

abbrev pub caret_seconds : Seconds
caret_seconds = (b'=', op_albitxor) ∷ []

abbrev pub ampersand_seconds : Seconds
ampersand_seconds = (b'&', op_logand) ∷ (b'=', op_albitand) ∷ []

abbrev pub star_seconds : Seconds
star_seconds = (b'=', op_almult) ∷ []

abbrev pub plus_seconds : Seconds
plus_seconds = (b'=', op_alplus) ∷ (b'+', op_inc) ∷ []

abbrev pub minus_seconds : Seconds
minus_seconds = (b'=', op_alminus) ∷ (b'-', op_dec) ∷ (b'>', op_pointer) ∷ []

abbrev pub bar_seconds : Seconds
bar_seconds = (b'=', op_albitor) ∷ (b'|', op_logor) ∷ []

-- `case '.'` behind the second byte `c`: two dots and another byte fall through to the default
-- branch.
abbrev pub after_period : ℕ → MemorySource → Op × MemorySource
after_period c s =
    let (d, s') = next get_char s in
    if c == b'.'
    then (if d == b'.' then (op_eppipsis, s') else (op_period, back s'))
    else (op_period, back s)

unfoldable pub period : MemorySource → Op × MemorySource
period s = let (c, s') = next get_char s in after_period c s'

-- `case '<'` and `case '>'` behind the second byte `c`: the operator itself, with `=`, doubled, and
-- doubled with `=`.
abbrev pub after_angle : ℕ → Op → Op → Op → Op → ℕ → MemorySource → Op × MemorySource
after_angle x one with_eq twice twice_eq c s =
    let (d, s') = next get_char s in
    if c == b'='
    then (with_eq, s)
    else if c == x
    then (if d == b'=' then (twice_eq, s') else (twice, back s'))
    else (one, s)

unfoldable pub angle : ℕ → Op → Op → Op → Op → MemorySource → Op × MemorySource
angle x one with_eq twice twice_eq s =
    let (c, s') = next get_char s in after_angle x one with_eq twice twice_eq c s'

-- `case '/'` and `case '='`
abbrev pub after_equals : Op → Op → ℕ → MemorySource → Op × MemorySource
after_equals with_eq one c s = if c == b'=' then (with_eq, s) else (one, s)

unfoldable pub with_equals : Op → Op → MemorySource → Op × MemorySource
with_equals with_eq one s = let (c, s') = next get_char s in after_equals with_eq one c s'

-- The cases that read nothing; the default branch reports an illegal token, `op_none`.
unfoldable pub single : ℕ → Op
single c =
    if c == b'~'
    then op_bitnot
    else if c == b'?'
    then op_question
    else if c == b'('
    then op_leftbrack
    else if c == b')'
    then op_rightbrack
    else if c == b'['
    then op_leftsqbrac
    else if c == b']'
    then op_rightsqbrac
    else if c == b'{'
    then op_leftbrace
    else if c == b'}'
    then op_rightbrace
    else if c == b','
    then op_comma
    else if c == b';'
    then op_semicolon
    else if c == b':'
    then op_colon
    else op_none

-- The `switch` of `Lex::operators`.
unfoldable pub operator : ℕ → MemorySource → Op × MemorySource
unfolding second_or_back find_second period angle with_equals single
operator c s =
    if c == b'!'
    then second_or_back bang_seconds op_lognot s
    else if c == b'%'
    then second_or_back percent_seconds op_mod s
    else if c == b'^'
    then second_or_back caret_seconds op_bitxor s
    else if c == b'&'
    then second_or_back ampersand_seconds op_bitand s
    else if c == b'*'
    then second_or_back star_seconds op_mult s
    else if c == b'+'
    then second_or_back plus_seconds op_plus s
    else if c == b'-'
    then second_or_back minus_seconds op_minus s
    else if c == b'|'
    then second_or_back bar_seconds op_bitor s
    else if c == b'.'
    then period s
    else if c == b'<'
    then angle b'<' op_lt op_le op_leftshift op_alleftshift s
    else if c == b'>'
    then angle b'>' op_gt op_ge op_rightshift op_alrightshift s
    else if c == b'/'
    then with_equals op_aldiv op_div s
    else if c == b'='
    then with_equals op_eq op_assign s
    else (single c, s)

-- `Lex::operators`: the token of the operator.
unfoldable pub operators : ℕ → MemorySource → Token × MemorySource
unfolding operator
operators c s =
    let (o, s') = operator c s in (record { token_value = op o; token_pos = position s' }, s')
