-- ===== src/Tests/Lexer.antt =====
-- lib/lex/lex.cc: runs and instances.
use wxcc.Base.{
  suc, ℕ, ◌≡◌, refl, [], ◌∷◌, ◌++◌, some, false, inl, inr, Bytes, codes, arith, isdigit, isalnum,
}
use wxcc.Input.{MemorySource, next, advance}
use wxcc.Lexer.{string_too_long, ok, out_of_fuel, null_dereference, is_word, match_branches}
use wxcc.Input.View.{Views}
use wxcc.Lexer.Chars.{char_value, char_of_length, get_a_char, parse_char_constant}
use wxcc.Lexer.Chars.Crash.{parse_char_constant_crashes}
use wxcc.Lexer.Constants.{goes_on_number, scan_number}
use wxcc.Lexer.Constants.Integer.{
  Integer, hexadecimal, integer_value, Fits, NumberIs, scan_number-NumberIs,
}
use wxcc.Lexer.Constants.Fraction.{AllDigit, float_suffix, scan_number-fraction}
use wxcc.Lexer.Letter.{letter, has_case}
use wxcc.Lexer.Letter.Longest.{WordIs, word_value, letter-word}
use wxcc.Lexer.Numbers.{nt_si, oct_digit, try_parse_oct_number}
use wxcc.Lexer.Numbers.Digits.{digit, value_in}
use wxcc.Lexer.Numbers.Positional.{value}
use wxcc.Lexer.Numbers.Floats.{CLibrary, nt_fl}
use wxcc.Lexer.Operators.{operator}
use wxcc.Lexer.Operators.Munch.{munch, OperatorIs, operator-munch}
use wxcc.Lexer.Operators.Overread.{operator-Overreads, operator_munch_on}
use wxcc.Lexer.Scan.{Scanner, scanner, get_next_token}
use wxcc.Lexer.Strings.{Text, string_loop}
use wxcc.Lexer.Strings.Unclosed.{string_rounds, string_rounds_start_over}
use wxcc.Lexer.Scan.Signs.{Behind}
use wxcc.Lexer.Scan.Breaks.{newline, directive, AllInLine}
use wxcc.Lexer.Scan.Ends.{repeated, output_digit_at_end, output_text_at_end}
use wxcc.Lexer.Scan.Lexemes.{word, constant, sign, quoted}
use wxcc.Lexer.Scan.Output.{output}
use wxcc.Lexer.Scan.RoundTrip.{
  take_tokens, Program, render, lexeme_values, AllLexemes, output-render,
}
use wxcc.Lexer.Scan.Yields.{stands}
use wxcc.Lexer.Words.{AllWord}
use wxcc.Token.{
  key_do, int_con, float_con, strtod, key, ident, number, op, op_pointer, op_semicolon,
}
use wxcc.Tests.Sources.{loaded, loaded-Views}

-- A source whose first byte was just got.
abbrev after_first : Bytes → ℕ → MemorySource
after_first xs c = advance c (loaded xs)

letter-word_example :
    WordIs
      (codes "int")
      (codes " x")
      (word_value (codes "int"))
      (letter 10 b'i' (after_first (codes "int x") b'i'))
letter-word_example =
    letter-word 10 b'i' [] (codes "nt") (codes " x") (after_first (codes "int x") b'i')
      (unfold has_case in refl) (unfold is_word in (refl, (refl, (refl, tt))))
      (unfold is_word in (refl, omega arith)) (refl, λ e. cc)
      (refl, omega arith, loaded (codes "int x"), loaded-Views (codes "int x") (omega arith), refl)
      (omega arith) (omega arith)

operator-munch_example :
    OperatorIs []
      (codes ">x")
      (munch (codes "->x")).0
      (munch (codes "->x")).1
      (operator b'-' (loaded (codes ">x")))
operator-munch_example =
    operator-munch b'-' refl [] (codes "x") b'>' (loaded (codes ">x"))
      (loaded-Views (codes ">x") (omega arith)) (omega arith)

operator_munch_on_example :
    OperatorIs []
      (codes "<=1")
      (munch (codes "<<=1")).0
      (munch (codes "<<=1")).1
      (operator b'<' (loaded (codes "<=1")))
operator_munch_on_example =
    operator_munch_on b'<' refl [] (codes "1") b'<' b'=' (loaded (codes "<=1"))
      (loaded-Views (codes "<=1") (omega arith)) (omega arith) (omega arith) refl

operator-Overreads_example :
    (OperatorIs []
      (codes "b;")
      (munch (codes "<b;")).0
      (codes ";")
      (operator b'<' (loaded (codes "b;"))))
    × ((munch (codes "<b;")).1 ≡ codes "b;")
operator-Overreads_example =
    operator-Overreads b'<' refl [] (codes ";") b'b' (loaded (codes "b;"))
      (loaded-Views (codes "b;") (omega arith)) (omega arith) refl

f_upper : digit b'F' ≡ some 15
unfolding digit value_in
f_upper = refl

a_lower : digit b'a' ≡ some 10
unfolding digit value_in
a_lower = refl

two : digit b'2' ≡ some 2
unfolding digit value_in
two = refl

-- `08` is read as 8.
eight : try_parse_oct_number (codes "08") ≡ record { i_value = 8; number_type = nt_si; errors = [] }
unfolding try_parse_oct_number oct_digit
eight = refl

-- A C library that finds every number in range.
abbrev c_library : CLibrary
c_library = record { erange = λ _. false; beyond_float = λ _. false }

abbrev forty_two : Integer
forty_two = hexadecimal (codes "2a")

forty_two-Fits : Fits forty_two
forty_two-Fits = (((2, two, omega arith), ((10, a_lower, omega arith), tt)), omega arith)

is_forty_two : integer_value forty_two ≡ 42
unfolding value digit value_in
is_forty_two = refl

scan_number-NumberIs_example :
    NumberIs
      (codes "0x2a")
      (codes ";")
      (int_con nt_si (integer_value forty_two))
      (scan_number c_library 5 b'0' (after_first (codes "0x2a;") b'0'))
scan_number-NumberIs_example =
    scan_number-NumberIs c_library 5 [] (codes ";") forty_two b'0' (codes "x2a")
      (after_first (codes "0x2a;") b'0') forty_two-Fits refl
      (unfold goes_on_number isalnum in (refl, omega arith))
      (refl, omega arith, loaded (codes "0x2a;"), loaded-Views (codes "0x2a;") (omega arith), refl)
      (omega arith)

abbrev program : Program
program =
    (directive (codes "line 1") ∷ newline ∷ [], word (codes "while"))
    ∷ ([], sign (codes "->") op_pointer)
    ∷ (newline ∷ [], constant (hexadecimal (codes "F")))
    ∷ ([], quoted (codes "a") (codes " ") ((codes "b", codes "  ") ∷ []))
    ∷ (newline ∷ [], word (codes "_x1"))
    ∷ []

while-AllWord : AllWord (codes "while")
unfolding is_word isalnum
while-AllWord = (refl, (refl, (refl, (refl, (refl, tt)))))

name-AllWord : AllWord (codes "_x1")
unfolding is_word isalnum
name-AllWord = (refl, (refl, (refl, tt)))

line-AllInLine : AllInLine (codes "line 1")
line-AllInLine = (refl, (refl, (refl, (refl, (refl, (refl, tt))))))

program-AllLexemes : AllLexemes program (codes "\n")
unfolding isdigit
program-AllLexemes = (
  (((line-AllInLine, omega arith), (tt, tt)), (refl, while-AllWord, refl, omega arith), tt),
  (
    (tt, inr (inr (inr (inl (refl, refl)))), tt),
    (
      ((tt, tt), (((15, f_upper, omega arith), tt), omega arith), tt),
      (
        (
          tt,
          ((((refl, tt), (refl, tt)), (((refl, tt), (refl, (refl, tt))), tt)), omega arith),
          ((refl, omega arith), omega arith),
        ),
        (((tt, tt), (refl, name-AllWord, refl, omega arith), tt), tt),
      ),
    ),
  ),
)

abbrev program_text : Bytes
program_text = render program ++ codes "\n"

output-render_example :
    output c_library 90 6 (scanner (loaded program_text)) ≡ ok (lexeme_values program)
output-render_example =
    output-render c_library 89 6 program (newline ∷ []) (scanner (loaded program_text))
      program-AllLexemes (tt, tt) (stands (loaded-Views program_text (omega arith))) (omega arith)
      (omega arith)

abbrev arrow : Program
arrow = ([], sign (codes "->") op_pointer) ∷ []

output_digit_at_end_example :
    (l' : Scanner) × (take_tokens c_library 60 1 (scanner (loaded (codes "-> 7")))
      ≡ ok (op op_pointer ∷ [], l'))
    × ((n : ℕ)
        → (l'' : Scanner) × (take_tokens c_library 60 n l'
            ≡ ok (repeated n (number (int_con nt_si 7)), l''))
          × Behind (codes "7") l''.source)
output_digit_at_end_example =
    output_digit_at_end c_library 59 b'7' arrow (scanner (loaded (codes "-> 7")))
      (unfold isdigit in refl) ((tt, inr (inr (inr (inl (refl, refl)))), tt), tt)
      (stands (loaded-Views (codes "-> 7") (omega arith))) (omega arith)

output_text_at_end_example :
    (l' : Scanner) × (take_tokens c_library 60 1 (scanner (loaded (codes "-> \"ab")))
      ≡ ok (op op_pointer ∷ [], l'))
    × ((k : ℕ) → get_next_token c_library (suc (suc k)) l' ≡ out_of_fuel)
output_text_at_end_example =
    output_text_at_end c_library 59 (codes "ab") arrow (scanner (loaded (codes "-> \"ab")))
      (refl, (refl, tt)) ((tt, inr (inr (inr (inl (refl, refl)))), tt), tt)
      (stands (loaded-Views (codes "-> \"ab") (omega arith))) (omega arith)

abbrev unclosed_text : Text
unclosed_text = record {
  source = loaded (codes "ab");
  buffer = [];
  length_count = 0;
  err_times = false;
  errors = [];
}

string_rounds_start_over_example :
    (v : Text) × (string_rounds 600 unclosed_text ≡ ok (false, v))
    × (v.length_count ≡ 88)
    × (v.errors ≡ string_too_long ∷ [])
    × (string_loop 600 unclosed_text ≡ out_of_fuel)
string_rounds_start_over_example =
    string_rounds_start_over 600 [] (codes "ab") unclosed_text (refl, (refl, tt))
      (loaded-Views (codes "ab") (omega arith)) refl refl

parse_char_constant_crashes_example :
    ((s' : MemorySource) × (char_value 5 (loaded (codes "a';")) ≡ ok ((1, 97), s'))
      × Views (codes "a'") (codes ";") s')
    × (parse_char_constant 5 (loaded (codes "a';")) ≡ null_dereference)
parse_char_constant_crashes_example =
    parse_char_constant_crashes 5 [] (codes "a") (codes ";") (loaded (codes "a';")) (refl, tt)
      (loaded-Views (codes "a';") (omega arith)) (omega arith) (omega arith)

digits : AllDigit (codes "12")
unfolding isdigit
digits = (refl, (refl, tt))

scan_number-fraction_example :
    NumberIs
      (codes "12.12f")
      (codes " ;")
      (float_con nt_fl (strtod (codes "12.12")))
      (scan_number c_library 9 b'1' (after_first (codes "12.12f ;") b'1'))
scan_number-fraction_example =
    scan_number-fraction c_library 9 b'1' (codes "2") (codes "12") float_suffix [] (codes " ;")
      (after_first (codes "12.12f ;") b'1') digits digits (λ e. absurd (omega arith)) (omega arith)
      (refl, refl) (unfold goes_on_number isalnum in (refl, omega arith))
      (
        refl,
        omega arith,
        loaded (codes "12.12f ;"),
        loaded-Views (codes "12.12f ;") (omega arith),
        refl,
      )
      (omega arith) (omega arith)

-- `1+2` is one constant, of which the sign is reported.
sum_is_one_constant :
    output c_library 60 5 (scanner (loaded (codes "1+2;")))
    ≡ ok (number (int_con nt_si 12) ∷ op op_semicolon ∷ [])
unfolding output next
sum_is_one_constant = refl

-- `do_it` is the keyword `do` and an identifier.
do_is_split :
    output c_library 60 5 (scanner (loaded (codes "do_it;")))
    ≡ ok (key key_do ∷ ident (codes "_it") ∷ op op_semicolon ∷ [])
unfolding output next letter match_branches
do_is_split = refl

-- The escape of a quote is a backslash, and that of a digit is its code.
quote_escape : get_a_char (codes "\\'") ≡ some (char_of_length 92 2)
unfolding get_a_char
quote_escape = refl

hex_escape_digit : get_a_char (codes "\\x1 ") ≡ some (char_of_length 49 3)
unfolding get_a_char
hex_escape_digit = refl
