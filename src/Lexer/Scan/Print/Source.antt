-- ===== src/Lexer/Scan/Print/Source.antt =====
-- lib/lex/output.cc: what is printed for a token against the text that it was read from.
use Prim.Native.String.{String}
use wxcc.Base.{
  ◌&◌, subst, ℕ, suc, ◌+◌, ◌<◌, length, Option, none, some, List, [], ◌∷◌, ◌++◌, Bytes, codes,
  equal, equal_sound, ◌≡◌, ◌≢◌, refl, ap, sym, ◌∙◌, Bool-cases, inl, inr,
}
use wxcc.Lexer.Keywords.Table.{Dictionary, find, keywords}
use wxcc.Lexer.Letter.{reclassify}
use wxcc.Lexer.Letter.Longest.{keyword_or_ident}
use wxcc.Lexer.Operators.Munch.{spellings}
use wxcc.Lexer.{ok}
use wxcc.Lexer.Constants.Integer.{integer_value}
use wxcc.Lexer.Numbers.Floats.{CLibrary}
use wxcc.Lexer.Strings.Plain.{joined}
use wxcc.Lexer.Scan.{Scanner, get_next_token}
use wxcc.Lexer.Scan.Breaks.{Gap, IsGap, gap_bytes}
use wxcc.Lexer.Scan.Lexemes.{
  Lexeme, word, constant, sign, quoted, spelled, lexeme_value, IsLexeme, Allows,
}
use wxcc.Lexer.Scan.RoundTrip.{next-lexeme}
use wxcc.Lexer.Scan.Signs.{Among, Behind}
use wxcc.Token.{Token, TokenValue, Keyword, key_sizeof, Op, key}
use wxcc.Lexer.Scan.Print.{
  num_type, format_number, Formats, dispatch_keywords, operator_texts, dispatch_operator,
  token_type, token_text, format_token,
}

-- Each word in the dictionary is what its keyword is printed as.
abbrev AllPrinted : Dictionary → Type 0
AllPrinted [] = Unit
AllPrinted ((v, k) ∷ m) = (dispatch_keywords k ≡ v) × AllPrinted m

find-printed :
    (w : Bytes) (m : Dictionary) (k : Keyword)
    → AllPrinted m
    → find w m ≡ some k
    → dispatch_keywords k ≡ w
unfolding find
find-printed w [] k a h = cc
find-printed w ((v, k') ∷ m) k a h = elim (Bool-cases (equal w v)) [
  | inl same ↦
      let here : some k' ≡ some k = rw same at h in
      ap dispatch_keywords (some_injective (sym here)) ∙ (a.0 ∙ sym (equal_sound w v same))
  | inr other ↦ find-printed w m k a.1 (rw other at h)
]
  where
    some_injective : {x y : Keyword} → some x ≡ some y → x ≡ y
    some_injective e = cc

all_printed : AllPrinted keywords
unfolding dispatch_keywords
all_printed =
    refl & refl & refl & refl & refl & refl & refl & refl & refl & refl & refl & refl & refl & refl
    & refl & refl & refl & refl & refl & refl & refl & refl & refl & refl & refl & refl & refl
    & refl & refl & refl & refl & refl & tt

-- Each operator is printed with the text that spells it.
abbrev AllSpelled : List (String × Op) → Type 0
AllSpelled [] = Unit
AllSpelled ((v, o) ∷ m) = ((n : String) × (operator_texts o ≡ some (n, v))) × AllSpelled m

all_spelled : AllSpelled spellings
all_spelled =
    ("EPPIPSIS", refl)
    & ("ALLEFTSHIFT", refl)
    & ("ALRIGHTSHIFT", refl)
    & ("POINTER", refl)
    & ("INC", refl)
    & ("DEC", refl)
    & ("LEFTSHIFT", refl)
    & ("RIGHTSHIFT", refl)
    & ("LE", refl)
    & ("GE", refl)
    & ("EQ", refl)
    & ("NE", refl)
    & ("LOGAND", refl)
    & ("LOGOR", refl)
    & ("ALPLUS", refl)
    & ("ALMINUS", refl)
    & ("ALMULT", refl)
    & ("ALDIV", refl)
    & ("ALMOD", refl)
    & ("ALBITAND", refl)
    & ("ALBITXOR", refl)
    & ("ALBITOR", refl)
    & ("LOGNOT", refl)
    & ("MOD", refl)
    & ("BITXOR", refl)
    & ("BITAND", refl)
    & ("MULT", refl)
    & ("PLUS", refl)
    & ("MINUS", refl)
    & ("BITNOT", refl)
    & ("BITOR", refl)
    & ("DIV", refl)
    & ("QUESTION", refl)
    & ("LT", refl)
    & ("GT", refl)
    & ("LEFTBRACK", refl)
    & ("RIGHTBRACK", refl)
    & ("LEFTSQBRAC", refl)
    & ("RIGHTSQBRAC", refl)
    & ("LEFTBRACE", refl)
    & ("RIGHTBRACE", refl)
    & ("COMMA", refl)
    & ("COLON", refl)
    & ("SEMICOLON", refl)
    & ("PERIOD", refl)
    & ("ASSIGN", refl)
    & tt

spelled_name :
    (w : Bytes) (o : Op) (m : List (String × Op))
    → AllSpelled m
    → Among w o m
    → (n : String) × (v : String) × (operator_texts o ≡ some (n, v)) × (codes v ≡ w)
spelled_name w o [] a h = absurd h
spelled_name w o ((v, o') ∷ m) a (inl (e, same)) =
    (a.0.0, v, ap operator_texts (sym same) ∙ a.0.1, e)
spelled_name w o ((v, o') ∷ m) a (inr h) = spelled_name w o m a.1 h

-- A word that is a keyword or an identifier.
abbrev pub word_kind : Option Keyword → Bytes
word_kind (some k) = codes "KEYWORD"
word_kind none = codes "Identifier"

keyword_shown :
    (f : Formats) (w : Bytes) (k : Keyword)
    → w ≢ codes "sizeof"
    → dispatch_keywords k ≡ w
    → format_token f (reclassify (key k)) ≡ some (f.left 20 (codes "KEYWORD") ++ b'|' ∷ b' ' ∷ w)
unfolding format_token token_type token_text dispatch_keywords
keyword_shown f w key_sizeof other e = absurd (other (sym e))
keyword_shown f w _ other e = ap (λ v. some (f.left 20 (codes "KEYWORD") ++ b'|' ∷ b' ' ∷ v)) e

found_word :
    (f : Formats) (w : Bytes) (k : Option Keyword)
    → find w keywords ≡ k
    → w ≢ codes "sizeof"
    → format_token f (reclassify (keyword_or_ident k w))
      ≡ some (f.left 20 (word_kind k) ++ b'|' ∷ b' ' ∷ w)
unfolding format_token token_type token_text
found_word f w none h other = refl
found_word f w (some k) h other =
    keyword_shown f w k other (find-printed w keywords k all_printed h)

-- All lexemes but the word that is an operator.
abbrev pub NoSizeof : Lexeme → Type 0
NoSizeof (word w) = w ≢ codes "sizeof"
NoSizeof _ = Unit

-- What is to be printed for a lexeme: its kind, and what it was read from or its value.
abbrev pub Printed : Formats → Lexeme → Option Bytes → Type 0
Printed f (word w) r = r ≡ some (f.left 20 (word_kind (find w keywords)) ++ b'|' ∷ b' ' ∷ w)
Printed f (constant n) r =
    r
    ≡ some (
        f.left 20 (codes "Integer Constant")
        ++ b'|' ∷ b' ' ∷ (f.left 13 (codes "signed int") ++ b'\t' ∷ f.double_of (integer_value n)))
Printed f (sign w o) r =
    (n : String) × (r
      ≡ some (f.left 20 (codes "Operator") ++ b'|' ∷ b' ' ∷ (f.left 13 (codes n) ++ b'\t' ∷ w)))
Printed f (quoted w bs ps) r =
    r ≡ some (f.left 20 (codes "String Constant") ++ b'|' ∷ b' ' ∷ joined w ps)

format_token-Printed :
    (f : Formats) (x : Lexeme)
    → NoSizeof x
    → IsLexeme x
    → Printed f x (format_token f (lexeme_value x))
unfolding format_token token_type token_text dispatch_operator format_number num_type
format_token-Printed f (word w) other i = found_word f w (find w keywords) refl other
format_token-Printed f (constant n) other i = refl
format_token-Printed f (sign w o) other i =
    let (n, u, e, same) = spelled_name w o spellings all_spelled i in (n, rw (e, same) refl)
format_token-Printed f (quoted w bs ps) other i = refl

-- In front of newlines, lines that begin with `#` and a lexeme other than the word `sizeof`,
-- `getNextToken` returns a token and is behind the lexeme, and the token is printed, whatever the
-- formats of the fmt library are: a word as a keyword or an identifier with its bytes, an operator
-- with a name and the bytes it was read from, a text with its bytes, and an integer constant with
-- its type and its value. A word does not begin with `do_`, an integer fits, and what `tmpBuffer`
-- takes is shorter than 512 bytes.
-- The input is shorter than 2 ^ 31 - 1 bytes.
pub format_token_shows_source :
    (lib : CLibrary) (f : Formats) (fuel : ℕ) (g : Gap) (x : Lexeme) (rest : Bytes) (l : Scanner)
    → NoSizeof x
    → IsGap g
    → IsLexeme x
    → Allows x rest
    → Behind (gap_bytes g ++ (spelled x ++ rest)) l.source
    → length (gap_bytes g) + length (spelled x) < fuel
    → (t : Token) × (l' : Scanner) × (get_next_token lib (suc fuel) l ≡ ok (t, l'))
      × Printed f x (format_token f t.token_value)
      × Behind rest l'.source
format_token_shows_source lib f fuel g x rest l other gap i a b h =
    let (t, l', e, v, b') = next-lexeme lib fuel g x rest l gap i a b h in
    (
      t,
      l',
      e,
      subst (λ (u : TokenValue). Printed f x (format_token f u)) (sym v)
          (format_token-Printed f x other i),
      b',
    )
