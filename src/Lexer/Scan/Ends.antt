-- ===== src/Lexer/Scan/Ends.antt =====
-- lib/lex/lex.cc: inputs that the lexer never comes to the end of.
use wxcc.Base.{
  ℕ, zero, suc, ◌-◌, ◌<◌, true, List, [], ◌∷◌, ◌++◌, Bytes, length, ◌≡◌, refl, ap, arith, isdigit,
}
use wxcc.Input.{advance}
use wxcc.Input.View.{advance-Views}
use wxcc.Lexer.{ok, out_of_fuel, ◌>>=◌}
use wxcc.Lexer.Constants.Repeat.{scan_number_again}
use wxcc.Lexer.Numbers.{nt_si}
use wxcc.Lexer.Numbers.Floats.{CLibrary}
use wxcc.Lexer.Scan.{Scanner, of_text, of_kind, get_next_token}
use wxcc.Lexer.Scan.Dispatch.{get_next_token-Dispatches, digit-kind_of}
use wxcc.Lexer.Scan.Lexemes.{Yields}
use wxcc.Lexer.Scan.RoundTrip.{
  Program, render, AllLexemes, lexeme_values, take_tokens, take_tokens-program,
}
use wxcc.Lexer.Scan.Signs.{Behind}
use wxcc.Lexer.Scan.Yields.{of_NumberIs, digit-NoBlank, stands, quote-kind_of}
use wxcc.Lexer.Strings.{Text}
use wxcc.Lexer.Strings.Plain.{AllPlain}
use wxcc.Lexer.Strings.Unclosed.{parse_string_unclosed}
use wxcc.Token.{TokenValue, number, int_con}

-- The token of a digit, with the digit still in front.
digit-Yields :
    (lib : CLibrary) (fuel c : ℕ) (l : Scanner)
    → isdigit c ≡ true
    → Behind (c ∷ []) l.source
    → 0 < fuel
    → Yields (number (int_con nt_si (c - b'0'))) (c ∷ []) l (get_next_token lib (suc fuel) l)
unfolding of_kind
digit-Yields lib fuel c l d b h =
    let nb = digit-NoBlank c d in
    let (read, s, e, v) = get_next_token-Dispatches lib fuel l c [] nb b h in
    rw (e, digit-kind_of c d)
      (of_NumberIs l (λ s. stands)
        (scan_number_again lib fuel c read (advance c s) d (refl, nb.1, s, v, refl)))

-- The same value `n` times.
abbrev pub repeated : ℕ → TokenValue → List TokenValue
repeated zero v = []
repeated (suc n) v = v ∷ repeated n v

digit-again :
    (lib : CLibrary) (fuel c n : ℕ) (l : Scanner)
    → isdigit c ≡ true
    → Behind (c ∷ []) l.source
    → 0 < fuel
    → (l' : Scanner) × (take_tokens lib (suc fuel) n l
        ≡ ok (repeated n (number (int_con nt_si (c - b'0'))), l'))
      × Behind (c ∷ []) l'.source
unfolding take_tokens
digit-again lib fuel c zero l d b h = (l, refl, b)
digit-again lib fuel c (suc n) l d b h =
    let y = digit-Yields lib fuel c l d b h in
    let (l', e, b') = digit-again lib fuel c n y.after d y.behind h in
    (l', rw (y.returned, e, y.value_is) refl, b')

-- A program of lexemes that ends in a digit with nothing behind it: `getNextToken` returns the
-- tokens of the lexemes, and from then on, however often it is called, the token of that digit, and
-- leaves the digit to be read again. The fuel of each call exceeds the length of the lexemes.
-- The input is shorter than 2 ^ 31 - 1 bytes.
pub output_digit_at_end :
    (lib : CLibrary) (fuel c : ℕ) (xs : Program) (l : Scanner)
    → isdigit c ≡ true
    → AllLexemes xs (c ∷ [])
    → Behind (render xs ++ c ∷ []) l.source
    → length (render xs) < fuel
    → (l' : Scanner) × (take_tokens lib (suc fuel) (length xs) l ≡ ok (lexeme_values xs, l'))
      × ((n : ℕ)
          → (l'' : Scanner) × (take_tokens lib (suc fuel) n l'
              ≡ ok (repeated n (number (int_con nt_si (c - b'0'))), l''))
            × Behind (c ∷ []) l''.source)
output_digit_at_end lib fuel c xs l d a b h =
    let (l', e, b') = take_tokens-program lib fuel xs (c ∷ []) l a b h in
    (l', e, (λ n. digit-again lib fuel c n l' d b' (omega arith)))

unclosed :
    (lib : CLibrary) (fuel : ℕ) (w : Bytes) (l : Scanner)
    → AllPlain w
    → Behind (b'"' ∷ w) l.source
    → 0 < fuel
    → get_next_token lib (suc fuel) l ≡ out_of_fuel
unfolding of_kind
unclosed lib fuel w l a b h =
    let (read, s, e, v) = get_next_token-Dispatches lib fuel l b'"' w (refl, omega arith) b h in
    let u : Text = record {
      source = advance b'"' s;
      buffer = [];
      length_count = 0;
      err_times = l.err_times;
      errors = l.errors;
    } in
    let stuck =
      parse_string_unclosed (suc fuel) (read ++ b'"' ∷ []) w u a (advance-Views s v)
        (omega arith, omega arith) in
    rw (e, quote-kind_of) (ap (λ r. r >>= of_text) stuck)

-- A text of bytes that stand for themselves, which is not closed before the input ends, behind a
-- program of lexemes: `getNextToken` returns the tokens of the lexemes, and then it never returns,
-- whatever the length of the text and whatever the fuel, of two or more. The fuel of the calls
-- before exceeds the length of the lexemes.
-- The input is shorter than 2 ^ 31 - 1 bytes.
pub output_text_at_end :
    (lib : CLibrary) (fuel : ℕ) (w : Bytes) (xs : Program) (l : Scanner)
    → AllPlain w
    → AllLexemes xs (b'"' ∷ w)
    → Behind (render xs ++ b'"' ∷ w) l.source
    → length (render xs) < fuel
    → (l' : Scanner) × (take_tokens lib (suc fuel) (length xs) l ≡ ok (lexeme_values xs, l'))
      × ((k : ℕ) → get_next_token lib (suc (suc k)) l' ≡ out_of_fuel)
output_text_at_end lib fuel w xs l p a b h =
    let (l', e, b') = take_tokens-program lib fuel xs (b'"' ∷ w) l a b h in
    (l', e, (λ k. unclosed lib (suc k) w l' p b' (omega arith)))
