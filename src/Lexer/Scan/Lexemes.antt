-- ===== src/Lexer/Scan/Lexemes.antt =====
-- lib/lex/lex.cc: `Lex::getNextToken` on the words, operators, integer constants and texts of C.
use wxcc.Base.{◌<◌, false, [], ◌∷◌, ◌++◌, Bytes, length, ◌≡◌, isdigit}
use wxcc.Lexer.{Run, ok, tmpbuffer_size}
use wxcc.Lexer.Constants.Integer.{Integer, spelling, integer_value, Fits}
use wxcc.Lexer.Letter.{reclassify}
use wxcc.Lexer.Letter.Longest.{word_value, begins_do_}
use wxcc.Lexer.Numbers.{nt_si}
use wxcc.Lexer.Operators.Munch.{spellings}
use wxcc.Lexer.Scan.{Scanner}
use wxcc.Lexer.Scan.Blanks.{NoBlank}
use wxcc.Lexer.Scan.Signs.{Behind, Among}
use wxcc.Lexer.Strings.Plain.{Pieces, inside, joined, AllPieces, NoText}
use wxcc.Lexer.Words.{AllWord}
use wxcc.Token.{TokenValue, number, int_con, text, op, Op, Token}

-- What a program is written with.
pub data Lexeme : Type 0 where
  word : Bytes → Lexeme
  constant : Integer → Lexeme
  sign : Bytes → Op → Lexeme
  quoted : Bytes → Bytes → Pieces → Lexeme

-- A blank stands behind a lexeme, but for texts, where those that are one token have their blanks.
abbrev pub spelled : Lexeme → Bytes
spelled (word w) = w ++ b' ' ∷ []
spelled (constant n) = spelling n ++ b' ' ∷ []
spelled (sign w o) = w ++ b' ' ∷ []
spelled (quoted w bs ps) = b'"' ∷ inside w bs ps

abbrev pub lexeme_value : Lexeme → TokenValue
lexeme_value (word w) = reclassify (word_value w)
lexeme_value (constant n) = number (int_con nt_si (integer_value n))
lexeme_value (sign w o) = op o
lexeme_value (quoted w bs ps) = text (joined w ps)

abbrev pub NoDigit : Bytes → Type 0
NoDigit [] = ⊥
NoDigit (c ∷ cs) = isdigit c ≡ false

-- Words are of letters, digits and underscores, begin with no digit and not with `do_`; integers
-- fit; operators are those of the language; texts have no escapes. `tmpBuffer` has room for all.
abbrev pub IsLexeme : Lexeme → Type 0
IsLexeme (word w) = NoDigit w × AllWord w × (begins_do_ w ≡ false) × (length w < tmpbuffer_size)
IsLexeme (constant n) = Fits n
IsLexeme (sign w o) = Among w o spellings
IsLexeme (quoted w bs ps) = AllPieces ((w, bs) ∷ ps) × (length (joined w ps) < tmpbuffer_size)

-- What may stand behind: behind a text neither a blank nor another text.
abbrev pub Allows : Lexeme → Bytes → Type 0
Allows (quoted w bs ps) rest = NoBlank rest × NoText rest
Allows _ rest = Unit

-- `getNextToken` returned a token of this value without an error, and the source is in front of
-- `rest`.
pub record Yields (v : TokenValue) (rest : Bytes) (l : Scanner) (r : Run (Token × Scanner))
    : Type 0 where
  pub token : Token
  pub after : Scanner
  pub returned : r ≡ ok (token, after)
  pub value_is : token.token_value ≡ v
  pub no_error : after.errors ≡ l.errors
  pub behind : Behind rest after.source
