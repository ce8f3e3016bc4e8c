-- ===== src/Lexer/Constants.antt =====
-- lib/lex/lex.cc: `Lex::getBufferUntilSp`, `Lex::newNumber` and `Lex::number`.
pub mod Reach
pub mod Integer
pub mod Fraction
pub mod Repeat
use wxcc.Base.{
  ℕ, zero, suc, ◌+◌, Bool, true, false, ◌||◌, List, [], ◌∷◌, ◌++◌, Bytes, length, get_or, isdigit,
  isalnum, ltb, ◌==◌, if◌then◌else◌,
}
use wxcc.Input.{get_char, MemorySource, next, position}
use wxcc.Lexer.{Run, ok, overflow, out_of_fuel, assertion, ◌>>=◌, LexError, tmpbuffer_size, back}
use wxcc.Lexer.Numbers.{IntConstant, try_parse_hex_number, try_parse_oct_number}
use wxcc.Lexer.Numbers.Decimal.{DecConstant, integer, floating, try_parse_dec_number}
use wxcc.Lexer.Numbers.Floats.{CLibrary, FloatConstant, try_parse_float_number}
use wxcc.Token.{Number, int_con, float_con, number, Token}

-- A byte that goes on a number.
unfoldable pub goes_on_number : ℕ → Bool
unfolding isalnum
goes_on_number c = c == b'.' || c == b'+' || c == b'-' || isalnum c

-- `buffer` is what stands in `tmpBuffer` before `i`, and `c` is the byte at hand, which is stored
-- whatever it is. The byte that ends the run is given back, also where none was got.
unfoldable pub buffer_until_sp : ℕ → Bytes → ℕ → MemorySource → Run (Bytes × MemorySource)
unfolding goes_on_number
buffer_until_sp zero buffer c s = out_of_fuel
buffer_until_sp (suc fuel) buffer c s =
    let (c', s') = next get_char s in
    let again = buffer_until_sp fuel (buffer ++ c ∷ []) c' s' in
    let done : Bytes × MemorySource = (buffer ++ c ∷ [], back s') in
    if ltb (length buffer) tmpbuffer_size
    then (if goes_on_number c'
        then again
        else if ltb (length buffer + 1) tmpbuffer_size
        then ok done
        else overflow)
    else overflow

-- `Lex::getBufferUntilSp`, with the text left in `tmpBuffer`.
unfoldable pub get_buffer_until_sp : ℕ → MemorySource → Run (Bytes × MemorySource)
unfolding buffer_until_sp
get_buffer_until_sp fuel s = let (c, s') = next get_char s in buffer_until_sp fuel [] c s'

-- A number with the errors printed on the way to it.
pub record Parsed : Type 0 where
  pub number : Number
  pub errors : List LexError

abbrev pub parsed_int : IntConstant → Parsed
parsed_int i = record { number = int_con i.number_type i.i_value; errors = i.errors }

abbrev pub parsed_dec : CLibrary → Bytes → DecConstant → Parsed
parsed_dec lib buffer (integer i) = parsed_int i
parsed_dec lib buffer (floating number_type errors) =
    let f = try_parse_float_number lib buffer in
    record { number = float_con f.number_type f.d_value; errors = errors ++ f.errors }

-- The `switch` on the radix.
unfoldable pub parse_radix : CLibrary → Bytes → ℕ → Run Parsed
unfolding try_parse_dec_number try_parse_hex_number try_parse_oct_number try_parse_float_number
parse_radix lib buffer radix =
    if radix == 10
    then ok (parsed_dec lib buffer (try_parse_dec_number buffer))
    else if radix == 16
    then ok (parsed_int (try_parse_hex_number buffer))
    else if radix == 8
    then ok (parsed_int (try_parse_oct_number buffer))
    else assertion

pub record Lexed : Type 0 where
  pub token : Token
  pub source : MemorySource
  pub errors : List LexError

-- `Lex::newNumber`
unfoldable pub new_number : CLibrary → Bytes → ℕ → MemorySource → Run Lexed
unfolding parse_radix
new_number lib buffer radix s = do
  p ← parse_radix lib buffer radix
  ok (record {
    token = record { token_value = number p.number; token_pos = position s };
    source = s;
    errors = p.errors;
  })

-- The radix that `number` chooses, by the first byte and the one behind it.
unfoldable pub radix_of : ℕ → ℕ → ℕ
unfolding isdigit
radix_of peek second =
    if peek == b'0'
    then (if isdigit second then 8 else if second == b'x' || second == b'X' then 16 else 10)
    else 10

-- `Lex::number`
unfoldable pub scan_number : CLibrary → ℕ → ℕ → MemorySource → Run Lexed
unfolding get_buffer_until_sp radix_of new_number
scan_number lib fuel peek s = do
  (buffer, s') ← get_buffer_until_sp fuel (back s)
  new_number lib buffer (radix_of peek (get_or buffer 1 0)) s'
