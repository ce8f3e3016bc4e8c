-- ===== src/Lexer/Numbers.antt =====
-- lib/lex/lex.cc: `Lex::tryParseHexNumber` and `Lex::tryParseOctNumber`, on the bytes of the number
-- up to the NUL behind them. An `int` is its bit pattern, a number below 2 ^ 32; it enters the
-- `uint64_t` of the token with its sign.
pub mod Positional
pub mod Value
pub mod Digits
pub mod Decimal
pub mod Floats
use Prim.Native.Nat.{bit_or}
use wxcc.Base.{
  ℕ, ◌+◌, ◌-◌, ◌*◌, ◌%◌, ◌^◌, Bool, true, false, ◌&&◌, ◌||◌, Option, none, some, List, [], ◌∷◌,
  ◌++◌, Bytes, drop, leb, ltb, ◌==◌, if◌then◌else◌,
}
use wxcc.Lexer.{LexError, ill_suffix, ill_char_in_hex, ill_char_in_oct, icon_too_big}

abbrev pub nt_si : ℕ
nt_si = 0x0011_0001

abbrev pub nt_unsigned_mask : ℕ
nt_unsigned_mask = 0x0011_0100

abbrev pub nt_long_mask : ℕ
nt_long_mask = 0x0011_0010

-- The variables of the loops; `finished` is a `goto` to the end.
pub record Scan : Type 0 where
  pub result : ℕ
  pub number_type : ℕ
  pub reach_u : Bool
  pub reach_l : Bool
  pub times : ℕ
  pub errors : List LexError
  pub finished : Bool

abbrev pub start : Scan
start = record {
  result = 0;
  number_type = nt_si;
  reach_u = false;
  reach_l = false;
  times = 0;
  errors = [];
  finished = false;
}

abbrev pub report : LexError → Scan → Scan
report e s = record s { errors = s.errors ++ e ∷ [] }

abbrev pub stop : LexError → Scan → Scan
stop e s = record (report e s) { finished = true }

-- `result = (result << k) + d`, where `base` is 2 ^ k.
abbrev pub shift_in : ℕ → ℕ → Scan → Scan
shift_in base d s = record s { result = (s.result * base + d) % 2 ^ 32 }

-- The digits of the two `switch`es; the octal one has a `case '8'`.
unfoldable pub hex_digit : ℕ → Option ℕ
hex_digit c =
    if leb b'0' c && leb c b'9'
    then some (c - b'0')
    else if leb b'a' c && leb c b'f'
    then some (c - b'a' + 10)
    else if leb b'A' c && leb c b'F'
    then some (c - b'A' + 10)
    else none

unfoldable pub oct_digit : ℕ → Option ℕ
oct_digit c = if leb b'0' c && leb c b'8' then some (c - b'0') else none

abbrev pub suffix_u : Scan → Scan
suffix_u s =
    if s.reach_u
    then report ill_suffix s
    else record s { number_type = bit_or s.number_type nt_unsigned_mask; reach_u = true }

-- The `switch` of the hexadecimal loop.
unfoldable pub hex_switch : Option ℕ → ℕ → Scan → Scan
hex_switch (some d) c s = shift_in 16 d s
hex_switch none c s =
    if c == b'u' || c == b'U'
    then suffix_u s
    else if c == b'l' || c == b'L'
    then (if s.reach_l
        then report ill_suffix s
        else record s { number_type = bit_or s.number_type nt_long_mask; reach_l = true })
    else stop ill_char_in_hex s

-- The end of a round: nine bytes at most.
unfoldable pub hex_count : Scan → Scan
hex_count s = if leb 8 s.times then stop icon_too_big s else record s { times = s.times + 1 }

unfoldable pub hex_round : ℕ → Scan → Scan
unfolding hex_switch hex_count hex_digit
hex_round c s = let t = hex_switch (hex_digit c) c s in if t.finished then t else hex_count t

unfoldable pub hex_loop : Bytes → Scan → Scan
unfolding hex_round
hex_loop [] s = s
hex_loop (c ∷ cs) s =
    let u = hex_round c s in let rest = hex_loop cs u in if u.finished then u else rest

-- The long suffix where it sets `reachU`.
abbrev pub suffix_l_as_u : Scan → Scan
suffix_l_as_u s =
    if s.reach_l
    then report ill_suffix s
    else record s { number_type = bit_or s.number_type nt_long_mask; reach_u = true }

-- The `switch` of the octal loop.
unfoldable pub oct_switch : Option ℕ → ℕ → Scan → Scan
oct_switch (some d) c s = shift_in 8 d s
oct_switch none c s =
    if c == b'u' || c == b'U'
    then suffix_u s
    else if c == b'l' || c == b'L'
    then suffix_l_as_u s
    else stop ill_char_in_oct s

-- The end of a round: eleven bytes are too many.
unfoldable pub oct_count : Scan → Scan
oct_count s =
    let t = record s { times = s.times + 1 } in if leb 11 t.times then stop icon_too_big t else t

unfoldable pub oct_round : ℕ → Scan → Scan
unfolding oct_switch oct_count oct_digit
oct_round c s = let t = oct_switch (oct_digit c) c s in if t.finished then t else oct_count t

unfoldable pub oct_loop : Bytes → Scan → Scan
unfolding oct_round
oct_loop [] s = s
oct_loop (c ∷ cs) s =
    let u = oct_round c s in let rest = oct_loop cs u in if u.finished then u else rest

-- The conversion of an `int` to `uint64_t`.
abbrev pub sign_extend : ℕ → ℕ
sign_extend r = if ltb r (2 ^ 31) then r else r + (2 ^ 64 - 2 ^ 32)

-- An integer constant with the errors printed on the way.
pub record IntConstant : Type 0 where
  pub i_value : ℕ
  pub number_type : ℕ
  pub errors : List LexError

abbrev pub constant : Scan → IntConstant
constant s = record {
  i_value = sign_extend s.result;
  number_type = s.number_type;
  errors = s.errors;
}

-- `Lex::tryParseHexNumber`, which passes over `0x`.
unfoldable pub try_parse_hex_number : Bytes → IntConstant
unfolding hex_loop
try_parse_hex_number buffer = constant (hex_loop (drop 2 buffer) start)

-- `Lex::tryParseOctNumber`
unfoldable pub try_parse_oct_number : Bytes → IntConstant
unfolding oct_loop
try_parse_oct_number buffer = constant (oct_loop buffer start)
