-- ===== src/Lexer/Scan/Yields.antt =====
-- lib/lex/lex.cc: what `Lex::getNextToken` returns for a lexeme.
use wxcc.Base.{
  ℕ, suc, ◌<◌, ◌≢◌, true, false, none, [], ◌∷◌, ◌++◌, Bytes, length, ◌≡◌, refl, sym, ap, subst, ◌∙◌,
  arith, isdigit, isalnum, get_or, inl, inr, Bool-cases, append-nil, append_assoc, length-append,
}
use wxcc.Input.{MemorySource, advance, position}
use wxcc.Input.View.{Views, advance-Views}
use wxcc.Lexer.{Run, ok, ◌>>=◌, is_word, tmpbuffer_size, identifier}
use wxcc.Lexer.Constants.{goes_on_number, Lexed}
use wxcc.Lexer.Constants.Integer.{
  Integer, decimal, octal, hexadecimal, NumberIs, spelling, Fits, scan_number-NumberIs,
}
use wxcc.Lexer.Constants.Reach.{EndsNumber}
use wxcc.Lexer.Keywords.{letters}
use wxcc.Lexer.Keywords.Table.{find, keywords, lookup-keywords}
use wxcc.Lexer.Letter.{has_case, reclassify, parse_letter}
use wxcc.Lexer.Letter.Longest.{word_value, letter-word, begins_do_, WordIs}
use wxcc.Lexer.Numbers.Digits.{dec_agrees}
use wxcc.Lexer.Numbers.Decimal.{dec_digit}
use wxcc.Lexer.Numbers.Floats.{CLibrary}
use wxcc.Lexer.Operators.{operator, operators}
use wxcc.Lexer.Scan.{
  Scanner, at_source, of_word, of_number, of_text, of_operator, reported, string_kind, kind_of,
  of_kind, get_next_token,
}
use wxcc.Lexer.Scan.Blanks.{NoBlank}
use wxcc.Lexer.Scan.Dispatch.{
  Dispatches, get_next_token-Dispatches, digit-kind_of, letter-kind_of, identifier-kind_of, no_case,
}
use wxcc.Lexer.Scan.Signs.{Behind, SignIs, Returns, sign-SignIs}
use wxcc.Lexer.Strings.{Text}
use wxcc.Lexer.Strings.Plain.{Pieces, inside, TextIs, parse_string-TextIs}
use wxcc.Lexer.Words.{AllWord, Ends, identifier-word}
use wxcc.Token.{TokenValue, Number, number, text, op, Op, Token}
use wxcc.Lexer.Scan.Lexemes.{
  Lexeme, word, constant, sign, quoted, spelled, lexeme_value, IsLexeme, Allows, Yields,
}

pub stands : {read rest : Bytes} {s : MemorySource} → Views read rest s → Behind rest s
stands {read} v = record { read = read; blanks = []; all_blank = tt; few = omega arith; views = v }

blank-Ends : (rest : Bytes) → Ends (b' ' ∷ rest)
unfolding is_word isalnum
blank-Ends rest = (refl, omega arith)

pub blank : {read rest : Bytes} {s : MemorySource} → Views read (b' ' ∷ rest) s → Behind rest s
blank {read} v = record {
  read = read;
  blanks = b' ' ∷ [];
  all_blank = (refl, tt);
  few = omega arith;
  views = v;
}

of_WordIs :
    {read rest : Bytes} {v : TokenValue} {r : Run (Token × MemorySource)} (l : Scanner)
    → WordIs read (b' ' ∷ rest) v r
    → Yields v rest l (r >>= of_word l)
of_WordIs {v = v} l (s, e, w) = rw e (record {
  token = record { token_value = v; token_pos = position s };
  after = at_source s l;
  returned = refl;
  value_is = refl;
  no_error = refl;
  behind = blank w;
})

parse_letter-WordIs :
    (fuel x : ℕ) (read w rest : Bytes) (s : MemorySource)
    → has_case x letters ≡ true
    → AllWord (x ∷ w)
    → begins_do_ (x ∷ w) ≡ false
    → Views read (x ∷ (w ++ b' ' ∷ rest)) s
    → x ≢ 0
    → length (x ∷ w) < tmpbuffer_size
    → length (x ∷ w) < fuel
    → WordIs
        (read ++ x ∷ w)
        (b' ' ∷ rest)
        (reclassify (word_value (x ∷ w)))
        (parse_letter fuel x (advance x s))
unfolding parse_letter
parse_letter-WordIs fuel x read w rest s k a d v nz room h =
    let (s', e, u) =
      letter-word fuel x read w (b' ' ∷ rest) (advance x s) k a (blank-Ends rest) (d, λ _ e. cc)
        (refl, nz, s, v, refl) room h in
    (s', rw e refl, u)

identifier-WordIs :
    (fuel x : ℕ) (read w rest : Bytes) (s : MemorySource)
    → has_case x letters ≡ false
    → AllWord (x ∷ w)
    → Views read (x ∷ (w ++ b' ' ∷ rest)) s
    → x ≢ 0
    → length (x ∷ w) < tmpbuffer_size
    → length (x ∷ w) < fuel
    → WordIs
        (read ++ x ∷ w)
        (b' ' ∷ rest)
        (reclassify (word_value (x ∷ w)))
        (identifier fuel [] x (advance x s))
identifier-WordIs fuel x read w rest s k a v nz room h =
    let (s', e, u) =
      identifier-word fuel [] read (x ∷ w) (b' ' ∷ rest) x (advance x s) a (blank-Ends rest)
        (refl, nz, s, v, refl) (omega arith) h in
    let unknown : find (x ∷ w) keywords ≡ none =
      sym (lookup-keywords (x ∷ w)) ∙ no_case letters x w k in
    (s', rw unknown e, u)

word-Yields :
    (lib : CLibrary) (fuel x : ℕ) (w rest : Bytes) (l : Scanner)
    → IsLexeme (word (x ∷ w))
    → NoBlank (x ∷ [])
    → Dispatches lib fuel l x (w ++ b' ' ∷ rest)
    → length (x ∷ w) < fuel
    → Yields (lexeme_value (word (x ∷ w))) rest l (get_next_token lib (suc fuel) l)
unfolding of_kind
word-Yields lib fuel x w rest l (d, a, no_do, room) n (read, s, e, v) h =
    elim (Bool-cases (has_case x letters)) [
      | inl k ↦
          rw (e, letter-kind_of x a.0 d k)
            (of_WordIs l
              (parse_letter-WordIs (suc fuel) x read w rest s k a no_do v n.1 room (omega arith)))
      | inr k ↦
          rw (e, identifier-kind_of x a.0 d k)
            (of_WordIs l
              (identifier-WordIs (suc fuel) x read w rest s k a v n.1 room (omega arith)))
    ]

head-isdigit : (n : Integer) (c : ℕ) (w : Bytes) → Fits n → spelling n ≡ c ∷ w → isdigit c ≡ true
unfolding dec_digit isdigit
head-isdigit (decimal []) c w f e = absurd f.0
head-isdigit (decimal (d ∷ ds)) c w (l, ((v, g', b), a), s) e =
    let g = dec_agrees d v g' b in
    let same : d ≡ c = ap (λ (p : Bytes). get_or p 0 0) e in ground arith
head-isdigit (octal ds) c w f e =
    let same : b'0' ≡ c = ap (λ (p : Bytes). get_or p 0 0) e in ground arith
head-isdigit (hexadecimal ds) c w f e =
    let same : b'0' ≡ c = ap (λ (p : Bytes). get_or p 0 0) e in ground arith

blank-EndsNumber : (rest : Bytes) → EndsNumber (b' ' ∷ rest)
unfolding goes_on_number isalnum
blank-EndsNumber rest = (refl, omega arith)

pub of_NumberIs :
    {read rest rest' : Bytes} {n : Number} {r : Run Lexed} (l : Scanner)
    → ((s : MemorySource) → Views read rest s → Behind rest' s)
    → NumberIs read rest n r
    → Yields (number n) rest' l (r >>= of_number l)
of_NumberIs {n = n} l stand (s, e, w) = rw e (record {
  token = record { token_value = number n; token_pos = position s };
  after = record l { source = s; errors = l.errors ++ [] };
  returned = refl;
  value_is = refl;
  no_error = append-nil l.errors;
  behind = stand s w;
})

constant-Yields :
    (lib : CLibrary) (fuel c : ℕ) (n : Integer) (w rest : Bytes) (l : Scanner)
    → Fits n
    → spelling n ≡ c ∷ w
    → NoBlank (c ∷ [])
    → Dispatches lib fuel l c (w ++ b' ' ∷ rest)
    → length (c ∷ w) < fuel
    → Yields (lexeme_value (constant n)) rest l (get_next_token lib (suc fuel) l)
unfolding of_kind
constant-Yields lib fuel c n w rest l f spelt nb (read, s, e, v) h =
    rw (e, digit-kind_of c (head-isdigit n c w f spelt))
      (of_NumberIs l (λ s. blank)
        (scan_number-NumberIs lib (suc fuel) read (b' ' ∷ rest) n c w (advance c s) f spelt
          (blank-EndsNumber rest) (refl, nb.1, s, v, refl) (omega arith)))

of_Returns :
    {rest : Bytes} {o : Op} (c : ℕ) (s : MemorySource) (l : Scanner)
    → reported (op o) ≡ []
    → Returns o rest (operator c s)
    → Yields (op o) rest l (ok (of_operator l (operators c s)))
unfolding operators
of_Returns {o = o} c s l clean r = record {
  token = _;
  after = _;
  returned = refl;
  value_is = ap op r.op_is;
  no_error = rw (r.op_is, clean) (append-nil l.errors);
  behind = r.behind;
}

sign-Yields :
    (lib : CLibrary) (fuel c : ℕ) (w rest : Bytes) (o : Op) (l : Scanner)
    → SignIs (c ∷ w) o
    → Dispatches lib fuel l c (w ++ b' ' ∷ rest)
    → Yields (op o) rest l (get_next_token lib (suc fuel) l)
unfolding of_kind
sign-Yields lib fuel c w rest o l (k, b, clean, f) (read, s, e, v) =
    rw (e, k)
      (of_Returns c (advance c s) l clean
        (f (read ++ c ∷ []) rest (advance c s) (advance-Views s v)))

of_TextIs :
    (u : Text) {t read rest : Bytes} {n : ℕ} {r : Run Text} (l : Scanner)
    → u.errors ≡ l.errors
    → TextIs u t n read rest r
    → Yields (text t) rest l (r >>= of_text)
of_TextIs u {t} l same (s, m, e, i, v) = rw e (record {
  token = record { token_value = text t; token_pos = position s };
  after = record { source = s; err_times = u.err_times; errors = u.errors };
  returned = refl;
  value_is = refl;
  no_error = same;
  behind = stands v;
})

pub quote-kind_of : kind_of b'"' ≡ string_kind
unfolding kind_of
quote-kind_of = refl

quoted-Yields :
    (lib : CLibrary) (fuel : ℕ) (w bs : Bytes) (ps : Pieces) (rest : Bytes) (l : Scanner)
    → IsLexeme (quoted w bs ps)
    → Allows (quoted w bs ps) rest
    → Dispatches lib fuel l b'"' (inside w bs ps ++ rest)
    → length (inside w bs ps) < fuel
    → Yields (lexeme_value (quoted w bs ps)) rest l (get_next_token lib (suc fuel) l)
unfolding of_kind
quoted-Yields lib fuel w bs ps rest l (a, room) (b, q) (read, s, e, v) h =
    let u : Text = record {
      source = advance b'"' s;
      buffer = [];
      length_count = 0;
      err_times = l.err_times;
      errors = l.errors;
    } in
    rw (e, quote-kind_of)
      (of_TextIs u l refl (
        parse_string-TextIs (suc fuel) (read ++ b'"' ∷ []) w bs ps rest u a b q (advance-Views s v)
          (omega arith) (omega arith) (omega arith)))

word-NoBlank : (c : ℕ) → is_word c ≡ true → NoBlank (c ∷ [])
unfolding is_word isalnum isdigit
word-NoBlank c h = (ground arith, ground arith)

pub digit-NoBlank : (c : ℕ) → isdigit c ≡ true → NoBlank (c ∷ [])
unfolding isdigit
digit-NoBlank c h = (ground arith, ground arith)

constant-NoBlank :
    (n : Integer) (c : ℕ) (w : Bytes) → Fits n → spelling n ≡ c ∷ w → NoBlank (c ∷ [])
constant-NoBlank n c w f e = digit-NoBlank c (head-isdigit n c w f e)

-- The first byte of a lexeme is no blank.
pub spelled-NoBlank : (x : Lexeme) (rest : Bytes) → IsLexeme x → NoBlank (spelled x ++ rest)
spelled-NoBlank (word []) rest h = absurd h.0
spelled-NoBlank (word (c ∷ w)) rest h = word-NoBlank c h.1.0
spelled-NoBlank (constant (decimal [])) rest h = absurd h.0
spelled-NoBlank (constant (decimal (c ∷ w))) rest h = constant-NoBlank (decimal (c ∷ w)) c w h refl
spelled-NoBlank (constant (octal ds)) rest h = (refl, omega arith)
spelled-NoBlank (constant (hexadecimal ds)) rest h = (refl, omega arith)
spelled-NoBlank (sign [] o) rest h = absurd (sign-SignIs [] o h)
spelled-NoBlank (sign (c ∷ w) o) rest h = (sign-SignIs (c ∷ w) o h).1
spelled-NoBlank (quoted w bs ps) rest h = (refl, omega arith)

-- In front of bytes with a blank behind them.
dispatched :
    (lib : CLibrary) (fuel c : ℕ) (w rest : Bytes) (l : Scanner)
    → NoBlank (c ∷ [])
    → Behind ((c ∷ (w ++ b' ' ∷ [])) ++ rest) l.source
    → 0 < fuel
    → Dispatches lib fuel l c (w ++ b' ' ∷ rest)
dispatched lib fuel c w rest l n b h =
    get_next_token-Dispatches lib fuel l c (w ++ b' ' ∷ rest) n
      (subst (λ p. Behind (c ∷ p) l.source) (append_assoc w (b' ' ∷ []) rest) b) h

constant_case :
    (lib : CLibrary) (fuel c : ℕ) (n : Integer) (w rest : Bytes) (l : Scanner)
    → Fits n
    → spelling n ≡ c ∷ w
    → Behind ((c ∷ (w ++ b' ' ∷ [])) ++ rest) l.source
    → length (c ∷ (w ++ b' ' ∷ [])) < fuel
    → Yields (lexeme_value (constant n)) rest l (get_next_token lib (suc fuel) l)
constant_case lib fuel c n w rest l f e b h =
    let nb = constant-NoBlank n c w f e in
    constant-Yields lib fuel c n w rest l f e nb (dispatched lib fuel c w rest l nb b (omega arith))
      (omega (arith, length-append {0} w (b' ' ∷ [])))

-- `getNextToken` in front of a lexeme of the language, one blank before it at most: it returns the
-- lexeme's token and reports no error, and what follows the lexeme is left to read, but for a blank
-- at most. Fuel that exceeds the lexeme's length is enough.
pub lexeme-Yields :
    (lib : CLibrary) (fuel : ℕ) (x : Lexeme) (rest : Bytes) (l : Scanner)
    → IsLexeme x
    → Allows x rest
    → Behind (spelled x ++ rest) l.source
    → length (spelled x) < fuel
    → Yields (lexeme_value x) rest l (get_next_token lib (suc fuel) l)
lexeme-Yields lib fuel (word []) rest l i a b h = absurd i.0
lexeme-Yields lib fuel (word (c ∷ w)) rest l i a b h =
    let nb = word-NoBlank c i.1.0 in
    word-Yields lib fuel c w rest l i nb (dispatched lib fuel c w rest l nb b (omega arith))
      (omega (arith, length-append {0} w (b' ' ∷ [])))
lexeme-Yields lib fuel (constant (decimal [])) rest l i a b h = absurd i.0
lexeme-Yields lib fuel (constant (decimal (c ∷ w))) rest l i a b h =
    constant_case lib fuel c (decimal (c ∷ w)) w rest l i refl b h
lexeme-Yields lib fuel (constant (octal ds)) rest l i a b h =
    constant_case lib fuel b'0' (octal ds) ds rest l i refl b h
lexeme-Yields lib fuel (constant (hexadecimal ds)) rest l i a b h =
    constant_case lib fuel b'0' (hexadecimal ds) (b'x' ∷ ds) rest l i refl b h
lexeme-Yields lib fuel (sign [] o) rest l i a b h = absurd (sign-SignIs [] o i)
lexeme-Yields lib fuel (sign (c ∷ w) o) rest l i a b h =
    let is = sign-SignIs (c ∷ w) o i in
    sign-Yields lib fuel c w rest o l is (dispatched lib fuel c w rest l is.1 b (omega arith))
lexeme-Yields lib fuel (quoted w bs ps) rest l i a b h =
    quoted-Yields lib fuel w bs ps rest l i a
      (get_next_token-Dispatches lib fuel l b'"' (inside w bs ps ++ rest) (refl, omega arith) b
        (omega arith))
      (omega arith)
