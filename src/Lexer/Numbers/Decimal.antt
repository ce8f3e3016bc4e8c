-- ===== src/Lexer/Numbers/Decimal.antt =====
-- lib/lex/lex.cc: `Lex::tryParseDecNumber`. A `.` or an exponent hands the whole buffer to
-- `Lex::tryParseFloatNumber`, which is left as an outcome.
use wxcc.Base.{
  ℕ, ◌+◌, ◌-◌, ◌*◌, ◌%◌, ◌^◌, ◌≤◌, ◌<◌, false, ◌&&◌, ◌||◌, Option, none, some, List, [], ◌∷◌, Bytes,
  length, ◌≡◌, refl, ap, ◌∙◌, arith, leb, ltb, ◌==◌, if◌then◌else◌,
}
use wxcc.Lexer.{LexError, ill_suffix, icon_too_big}
use wxcc.Lexer.Numbers.{nt_si, Scan, start, report, stop, suffix_u, suffix_l_as_u, IntConstant}
use wxcc.Lexer.Numbers.Positional.{value, AllDigits, shifted}
use wxcc.Lexer.Numbers.Value.{shifted_from_zero}

unfoldable pub dec_digit : ℕ → Option ℕ
dec_digit c = if leb b'0' c && leb c b'9' then some (c - b'0') else none

-- A round leaves the loop going or hands the buffer on, with what was set and printed so far.
pub data Round : Type 0 where
  goes_on floats : Scan → Round

-- The `switch`; any other byte is reported and passed over.
unfoldable pub dec_switch : Option ℕ → ℕ → Scan → Round
dec_switch (some d) c s = goes_on (record s { result = (s.result * 10 + d) % 2 ^ 64 })
dec_switch none c s =
    if c == b'u' || c == b'U'
    then goes_on (suffix_u s)
    else if c == b'l' || c == b'L'
    then goes_on (suffix_l_as_u s)
    else if c == b'.' || c == b'e' || c == b'E'
    then floats s
    else goes_on (report ill_suffix s)

-- The end of a round: seventeen bytes are too many.
unfoldable pub dec_count : Scan → Scan
dec_count s =
    let t = record s { times = s.times + 1 } in if ltb 16 t.times then stop icon_too_big t else t

unfoldable pub dec_end : Round → Round
unfolding dec_count
dec_end (floats s) = floats s
dec_end (goes_on s) = goes_on (dec_count s)

unfoldable pub dec_round : ℕ → Scan → Round
unfolding dec_switch dec_end dec_digit
dec_round c s = dec_end (dec_switch (dec_digit c) c s)

unfoldable pub unless_done : Round → (Scan → Round) → Round
unless_done (floats s) loop = floats s
unless_done (goes_on s) loop = let rest = loop s in if s.finished then goes_on s else rest

unfoldable pub dec_loop : Bytes → Scan → Round
unfolding dec_round unless_done
dec_loop [] s = goes_on s
dec_loop (c ∷ cs) s = unless_done (dec_round c s) (dec_loop cs)

-- A floating number has the type and the errors from before the call of `tryParseFloatNumber`.
pub data DecConstant : Type 0 where
  integer : IntConstant → DecConstant
  floating : ℕ → List LexError → DecConstant

abbrev pub dec_constant : Round → DecConstant
dec_constant (floats s) = floating s.number_type s.errors
dec_constant (goes_on s) =
    integer (record { i_value = s.result; number_type = s.number_type; errors = s.errors })

-- `Lex::tryParseDecNumber`
unfoldable pub try_parse_dec_number : Bytes → DecConstant
unfolding dec_loop
try_parse_dec_number buffer = dec_constant (dec_loop buffer start)

pub dec_round-digit :
    (c d : ℕ) (s : Scan)
    → dec_digit c ≡ some d
    → s.times < 16
    → dec_round c s
      ≡ goes_on (record s { result = (s.result * 10 + d) % 2 ^ 64; times = s.times + 1 })
unfolding dec_round dec_switch dec_end dec_count
dec_round-digit c d s e h = rw e (ground arith)

dec_loop-digits :
    (cs : Bytes) (s : Scan)
    → AllDigits dec_digit 10 cs
    → s.finished ≡ false
    → s.times + length cs ≤ 16
    → dec_loop cs s
      ≡ goes_on (record s {
        result = shifted dec_digit 10 (2 ^ 64) s.result cs;
        times = s.times + length cs;
      })
unfolding dec_loop unless_done shifted
dec_loop-digits [] s a f h = ground arith
dec_loop-digits (c ∷ cs) s ((d, e, _), a) f h =
    let t = record s {
      result = (s.result * 10 + d) % 2 ^ 64;
      times = s.times + 1;
      finished = false;
    } in
    let ih = dec_loop-digits cs t a refl (omega arith) in
    rw (dec_round-digit c d s e (omega arith), e, f)
      (ih
        ∙ ap
            (λ (n : ℕ).
              goes_on (record t { result = shifted dec_digit 10 (2 ^ 64) t.result cs; times = n }))
            (omega arith))

-- Up to sixteen decimal digits are read in full: the constant is their value, of type
-- `signed int`, without an error.
pub try_parse_dec_number-value :
    (ds : Bytes)
    → AllDigits dec_digit 10 ds
    → length ds ≤ 16
    → try_parse_dec_number ds
      ≡ integer (record { i_value = value dec_digit 10 ds; number_type = nt_si; errors = [] })
unfolding try_parse_dec_number
try_parse_dec_number-value ds a h =
    let (read, small) =
      shifted_from_zero dec_digit 10 16 (2 ^ 64) ds (omega arith) (omega arith) a h in
    rw (dec_loop-digits ds start a refl (omega arith), read) refl
