-- ===== src/Lexer/Chars.antt =====
-- lib/lex/lex.cc: `Lex::getAChar` and `Lex::parseCharConstant`.
--
-- A value of type `int` is its bit pattern, a number below 2 ^ 32. The text in `tmpBuffer` is the
-- list of its bytes with the NUL that ends it; what stands behind that is left from other tokens.
pub mod Crash
use wxcc.Base.{
  ℕ, zero, suc, ◌+◌, ◌-◌, ◌*◌, ◌%◌, ◌^◌, not, ◌&&◌, ◌||◌, Option, none, some, List, [], ◌∷◌, ◌++◌,
  Bytes, length, get_or, drop, isdigit, leb, ltb, ◌==◌, if◌then◌else◌,
}
use wxcc.Input.{get_char, MemorySource, position, next}
use wxcc.Lexer.Numbers.{sign_extend}
use wxcc.Token.{Number, int_con, TokenValue, number, Token}
use wxcc.Lexer.{
  Run, ok, overflow, out_of_fuel, null_dereference, uninitialised, exited, ◌>>=◌, tmpbuffer_size,
}

-- A character with the number of bytes that spell it.
pub record Char : Type 0 where
  pub result : ℕ
  pub length : ℕ

abbrev pub char_of_length : ℕ → ℕ → Char
char_of_length result n = record { result = result; length = n }

-- A hexadecimal digit of an escape: the digits add their code, the letters their value.
unfoldable pub hex_value : ℕ → Option ℕ
unfolding isdigit
hex_value c =
    if isdigit c
    then some c
    else if leb b'a' c && leb c b'f'
    then some (c - b'a' + 10)
    else if leb b'A' c && leb c b'F'
    then some (c - b'A' + 10)
    else none

-- `case 'x'`, from the two bytes behind it. The second one is read again and again: where it is a
-- digit, the code never comes back, which is `none`.
unfoldable pub hex_escape : Option ℕ → Option ℕ → Option Char
hex_escape none e = some (char_of_length 0 2)
hex_escape (some r) none = some (char_of_length r 3)
hex_escape (some r) (some x) = none

-- `case '0'`, from the two bytes behind it.
unfoldable pub oct_escape : ℕ → ℕ → Char
unfolding isdigit
oct_escape d e =
    if isdigit d && not (d == b'9')
    then (if isdigit e && not (e == b'9')
        then char_of_length ((d - b'0') * 8 + (e - b'0')) 4
        else char_of_length (d - b'0') 3)
    else char_of_length 0 2

-- The escapes of one byte; the quote gives a backslash.
unfoldable pub simple_escape : ℕ → Option ℕ
simple_escape c =
    if c == b'a'
    then some 7
    else if c == b'b'
    then some 8
    else if c == b'f'
    then some 12
    else if c == b'n'
    then some 10
    else if c == b'r'
    then some 13
    else if c == b't'
    then some 9
    else if c == b'v'
    then some 11
    else if c == b'\\'
    then some 92
    else if c == b'\''
    then some 92
    else if c == b'"'
    then some 34
    else if c == b'?'
    then some 63
    else none

abbrev pub other_escape : Bytes → ℕ → Option Char
other_escape xs c =
    if c == b'0'
    then some (oct_escape (get_or xs 2 0) (get_or xs 3 0))
    else if c == b'x' || c == b'X'
    then hex_escape (hex_value (get_or xs 2 0)) (hex_value (get_or xs 3 0))
    else some (char_of_length 0 2)

abbrev pub escape : Option ℕ → Bytes → ℕ → Option Char
escape (some r) xs c = some (char_of_length r 2)
escape none xs c = other_escape xs c

-- The conversion of a `char` to `int`.
abbrev pub of_char : ℕ → ℕ
of_char c = if ltb c 128 then c else c + (2 ^ 32 - 2 ^ 8)

-- `Lex::getAChar`, on the bytes from `pos` on.
unfoldable pub get_a_char : Bytes → Option Char
unfolding simple_escape oct_escape hex_escape hex_value
get_a_char xs =
    let c = get_or xs 0 0 in
    let d = get_or xs 1 0 in
    if c == b'\\' then escape (simple_escape d) xs d else some (char_of_length (of_char c) 1)

-- The first loop of `parseCharConstant`: the bytes up to the closing quote or the end of the line.
unfoldable pub char_loop : ℕ → ℕ → Bytes → MemorySource → Run (Bytes × MemorySource)
char_loop zero n buffer s = out_of_fuel
char_loop (suc fuel) n buffer s =
    let (t, s') = next get_char s in
    let full = n == tmpbuffer_size in
    let here = if full then [] else buffer in
    let again = char_loop fuel (if full then 1 else n + 1) (here ++ t ∷ []) s' in
    if t == b'\''
    then ok (buffer, s')
    else if t == b'\n'
    then ok (here, s')
    else if t == 255
    then exited
    else if ltb (length here) tmpbuffer_size
    then again
    else overflow

-- A round of the second loop behind `getAChar`.
unfoldable pub after_char :
    (Bytes → ℕ → ℕ → Run (ℕ × ℕ)) → Option Char → Bytes → ℕ → ℕ → Run (ℕ × ℕ)
unfolding drop
after_char loop none xs n result = out_of_fuel
after_char loop (some c) xs n result =
    loop (drop c.length xs) (if leb 4 n then 1 else n + 1) ((result * 2 ^ 8 + c.result) % 2 ^ 32)

-- The second loop: `lengthCount` and `result` at its end. A backslash at the end of the text takes
-- the NUL along.
unfoldable pub value_loop : ℕ → Bytes → ℕ → ℕ → Run (ℕ × ℕ)
unfolding get_a_char after_char
value_loop zero xs n result = out_of_fuel
value_loop (suc fuel) [] n result = uninitialised
value_loop (suc fuel) (c ∷ xs) n result =
    let more = after_char (value_loop fuel) (get_a_char (c ∷ xs)) (c ∷ xs) n result in
    if leb n 4 && not (c == 0) then more else ok (n, result)

-- The two loops of `parseCharConstant`: `lengthCount` and `result` behind them, and the source.
unfoldable pub char_value : ℕ → MemorySource → Run ((ℕ × ℕ) × MemorySource)
unfolding char_loop value_loop
char_value fuel s = do
  (buffer, s') ← char_loop fuel 0 [] s
  text ← if ltb (length buffer) tmpbuffer_size then ok (buffer ++ 0 ∷ []) else overflow
  counted ← value_loop (suc (length text)) text 0 0
  ok (counted, s')

abbrev pub nt_ch : ℕ
nt_ch = 0x0011_0103

abbrev pub nt_ui : ℕ
nt_ui = 0x0011_0101

-- The `numVal` of a token that `Token()` makes.
abbrev pub new_num_val : Option Number
new_num_val = none

-- The writes through `numVal`.
unfoldable pub write_num_val : Option Number → ℕ → ℕ → Run Number
write_num_val none number_type i_value = null_dereference
write_num_val (some n) number_type i_value = ok (int_con number_type i_value)

-- Its end: one character is a `char`, another number of them an `unsigned int`.
unfoldable pub char_token : ℕ → ℕ → Run TokenValue
unfolding write_num_val
char_token n result =
    write_num_val new_num_val (if n == 1 then nt_ch else nt_ui) (sign_extend result) >>= λ v.
    ok (number v)

-- `Lex::parseCharConstant`
unfoldable pub parse_char_constant : ℕ → MemorySource → Run (Token × MemorySource)
unfolding char_value char_token
parse_char_constant fuel s = do
  ((n, result), s') ← char_value fuel s
  value ← char_token n result
  ok (record { token_value = value; token_pos = position s' }, s')
