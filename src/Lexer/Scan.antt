-- ===== src/Lexer/Scan.antt =====
-- lib/lex/lex.cc: `Lex::getNextToken`.
pub mod Blanks
pub mod Dispatch
pub mod Lexemes
pub mod Yields
pub mod Breaks
pub mod RoundTrip
pub mod Output
pub mod Print
pub mod Signs
pub mod Ends
use wxcc.Base.{
  ℕ, zero, suc, ◌+◌, Bool, true, false, not, ◌&&◌, ◌||◌, List, [], ◌∷◌, ◌++◌, Bytes, pos, isdigit,
  isalnum, ltb, ◌==◌, if◌then◌else◌,
}
use wxcc.Input.{get_char, MemorySource, Position, next, position}
use wxcc.Lexer.{
  Run, ok, out_of_fuel, null_dereference, ◌>>=◌, LexError, ill_token, skip_blank, resynch, is_word,
  identifier,
}
use wxcc.Lexer.Chars.{parse_char_constant}
use wxcc.Lexer.Constants.{Lexed, scan_number}
use wxcc.Lexer.Keywords.{letters}
use wxcc.Lexer.Letter.{has_case, parse_letter}
use wxcc.Lexer.Numbers.Floats.{CLibrary}
use wxcc.Lexer.Operators.{operator, operators}
use wxcc.Lexer.Strings.{Text, parse_string}
use wxcc.Token.{TokenValue, none_token, text, op, op_none, Op, Token}

-- The lexer between two tokens: its source, the static `errTimes` of `parseString`, and the errors
-- printed so far.
pub record Scanner : Type 0 where
  pub source : MemorySource
  pub err_times : Bool
  pub errors : List LexError

abbrev pub scanner : MemorySource → Scanner
scanner s = record { source = s; err_times = false; errors = [] }

abbrev pub at_source : MemorySource → Scanner → Scanner
at_source s l = record l { source = s }

abbrev pub of_word : Scanner → Token × MemorySource → Run (Token × Scanner)
of_word l (t, s) = ok (t, at_source s l)

abbrev pub of_number : Scanner → Lexed → Run (Token × Scanner)
of_number l x = ok (x.token, record l { source = x.source; errors = l.errors ++ x.errors })

abbrev pub of_text : Text → Run (Token × Scanner)
of_text u = ok (
  record { token_value = text u.buffer; token_pos = position u.source },
  record { source = u.source; err_times = u.err_times; errors = u.errors },
)

-- The default branch of `operators` reports the byte and returns `OP_NONE`.
abbrev pub reported : TokenValue → List LexError
reported (op op_none) = ill_token ∷ []
reported _ = []

abbrev pub of_operator : Scanner → Token × MemorySource → Token × Scanner
of_operator l (t, s) = (t, record l { source = s; errors = l.errors ++ reported t.token_value })

-- `Token tok;`
abbrev pub no_token : Token
no_token = record { token_value = none_token; token_pos = record { line = 0; place = pos 0 } }

-- What a token's first byte says of it.
pub data Kind : Type 0 where
  digit_kind letter_kind identifier_kind string_kind char_kind skip_kind : Kind
  line_kind end_kind operator_kind : Kind

-- The cases of the `switch`; a byte with a case of `letter` is a letter here.
unfoldable pub kind_of : ℕ → Kind
unfolding isdigit has_case is_word
kind_of c =
    if c == b'\n' || c == 11 || c == 12 || c == b'\r' || c == b' ' || c == 255
    then skip_kind
    else if c == b'#'
    then line_kind
    else if isdigit c
    then digit_kind
    else if has_case c letters
    then letter_kind
    else if is_word c
    then identifier_kind
    else if c == b'"'
    then string_kind
    else if c == 0
    then end_kind
    else if c == b'\''
    then char_kind
    else operator_kind

-- The branches that return; `c` is `tmpBuffer[0]`, just got.
unfoldable pub of_kind :
    CLibrary → ℕ → (Scanner → Run (Token × Scanner)) → Kind → ℕ → Scanner → Run (Token × Scanner)
unfolding scan_number parse_letter identifier parse_string parse_char_constant operators resynch
of_kind lib fuel loop digit_kind c l = scan_number lib fuel c l.source >>= of_number l
of_kind lib fuel loop letter_kind c l = parse_letter fuel c l.source >>= of_word l
of_kind lib fuel loop identifier_kind c l = identifier fuel [] c l.source >>= of_word l
of_kind lib fuel loop string_kind c l =
    parse_string fuel (record {
      source = l.source;
      buffer = [];
      length_count = 0;
      err_times = l.err_times;
      errors = l.errors;
    })
    >>= of_text
of_kind lib fuel loop char_kind c l = do
  (t, s) ← parse_char_constant fuel l.source
  ok (t, at_source s l)
of_kind lib fuel loop skip_kind c l = loop l
of_kind lib fuel loop line_kind c l = resynch fuel 0 l.source >>= λ s. loop (at_source s l)
of_kind lib fuel loop end_kind c l = ok (no_token, l)
of_kind lib fuel loop operator_kind c l = ok (of_operator l (operators c l.source))

-- The byte in front, and the branch for it.
unfoldable pub dispatch :
    CLibrary
    → ℕ
    → (Scanner → Run (Token × Scanner))
    → Scanner
    → MemorySource
    → Run (Token × Scanner)
unfolding kind_of of_kind
dispatch lib fuel loop l s =
    let (c, s') = next get_char s in of_kind lib fuel loop (kind_of c) c (at_source s' l)

-- `Lex::getNextToken`
unfoldable pub get_next_token : CLibrary → ℕ → Scanner → Run (Token × Scanner)
unfolding dispatch
get_next_token lib zero l = out_of_fuel
get_next_token lib (suc fuel) l =
    skip_blank (suc fuel) l.source >>= dispatch lib (suc fuel) (get_next_token lib fuel) l
