-- ===== src/Lexer.antt =====
-- lib/lex/lex.cc: the scanner, over a memory source.
--
-- `tmpBuffer` is local to each token here: what the code has written to it from its start is a
-- list. A write past its 512 bytes is the fault `overflow`, and
-- a failed `assert` is `assertion`, the end of the process by `fatalError` is `exited`. The loops that the source bounds only
-- by its input take fuel; `Lexer` children prove how much is enough.
pub mod Keywords
pub mod Letter
pub mod Words
pub mod Operators
pub mod Numbers
pub mod Strings
pub mod Constants
pub mod Chars
pub mod Scan
use wxcc.Base.{
  ℕ, zero, suc, ◌+◌, Bool, true, false, not, ◌&&◌, ◌||◌, List, [], ◌∷◌, ◌++◌, Bytes, length, ltb,
  ◌==◌, if◌then◌else◌, isalnum,
}
use wxcc.Input.{GetType, get_char, push_back, look_ahead, MemorySource, next, position}
use wxcc.Token.{Keyword, Op, key_sizeof, op_sizeof, TokenValue, key, op, ident, Token}

pub data Run {ℓ} (A : Type ℓ) : Type ℓ where
  ok : A → Run A
  overflow out_of_fuel assertion null_dereference uninitialised exited : Run A

infixl 5 ◌>>=◌
abbrev pub ◌>>=◌ {ℓ κ} : {A : Type ℓ} {B : Type κ} → Run A → (A → Run B) → Run B
ok a >>= f = f a
overflow >>= f = overflow
out_of_fuel >>= f = out_of_fuel
assertion >>= f = assertion
null_dereference >>= f = null_dereference
uninitialised >>= f = uninitialised
exited >>= f = exited

abbrev pub tmpbuffer_size : ℕ
tmpbuffer_size = 512

-- `getNextChar(GET)` and its kin are calls of `next`. `getNextChar(BACK)` is used for its effect.
abbrev pub back : MemorySource → MemorySource
back s = (next push_back s).1

-- `Lex::skipBlank`
unfoldable pub skip_blank : ℕ → MemorySource → Run MemorySource
skip_blank zero s = out_of_fuel
skip_blank (suc fuel) s =
    let (t, s') = next get_char s in
    let again = skip_blank fuel s' in
    if t == b' ' || t == b'\t' then again else if t == 0 then ok s' else ok (back s')

-- `Lex::resynch`, from the number of bytes that `tmpBuffer` holds.
unfoldable pub resynch : ℕ → ℕ → MemorySource → Run MemorySource
resynch zero i s = out_of_fuel
resynch (suc fuel) i s =
    let (t, s') = next get_char s in
    let again = if ltb i tmpbuffer_size then resynch fuel (i + 1) s' else overflow in
    if t == b'\n' then (if ltb i tmpbuffer_size then ok s' else overflow) else again

-- A byte that goes on an identifier.
unfoldable pub is_word : ℕ → Bool
unfolding isalnum
is_word t = isalnum t || t == b'_'

-- `Lex::newIdentifier`, with the bytes of `tmpBuffer`.
abbrev pub new_identifier : Bytes → MemorySource → Token
new_identifier name s = record { token_value = ident name; token_pos = position s }

-- The loop of `Lex::identifier`: `buffer` is what stands in `tmpBuffer` before `start + length`,
-- and `t` is the byte at hand.
unfoldable pub identifier : ℕ → Bytes → ℕ → MemorySource → Run (Token × MemorySource)
unfolding is_word
identifier zero buffer t s = out_of_fuel
identifier (suc fuel) buffer t s =
    let (t', s') = next get_char s in
    let again = identifier fuel (buffer ++ t ∷ []) t' s' in
    let s'' = if t == 0 then s else back s in
    let done : Token × MemorySource = (new_identifier buffer s'', s'') in
    if ltb (length buffer) tmpbuffer_size then (if is_word t then again else ok done) else overflow

-- `CHECK_NEXT`; its second look is made only if the first finds no letter or digit.
unfoldable pub check_next : MemorySource → Bool × MemorySource
check_next s =
    let (c, s') = next look_ahead s in
    let (d, s'') = next look_ahead s' in if isalnum c then (false, s') else (not (d == b'_'), s'')

-- The nested tests of `Lex::letter`. At `last k` the last byte of a keyword is at hand, to be
-- confirmed by `CHECK_NEXT`; `follow` reads the next byte and tests it against the branches;
-- `last_or` is the one place that reads on to confirm a keyword, `do`.
mutual
  pub data Letters : Type 0 where
    last : Keyword → Letters
    follow : Branches → Letters
    last_or : Keyword → Branches → Letters

  pub data Branches : Type 0 where
    other : Branches
    branch : ℕ → Letters → Branches → Branches

-- How `letter` goes on behind the tests: it returns a keyword, or calls `identifier(p)` with
-- these bytes before `p` and this byte at `p`.
pub data Matched : Type 0 where
  keyword : Keyword → MemorySource → Matched
  not_keyword : Bytes → ℕ → MemorySource → Matched

unfoldable mutual
  unfolding check_next

  -- `c` is the byte at `p`, and `buffer` the bytes before it.
  pub match_letters : Letters → Bytes → ℕ → MemorySource → Matched
  match_letters (last k) buffer c s =
      let (confirmed, s') = check_next s in
      if confirmed then keyword k s' else not_keyword buffer c s'
  match_letters (follow bs) buffer c s =
      let (d, s') = next get_char s in match_branches bs (buffer ++ c ∷ []) d s'
  match_letters (last_or k bs) buffer c s =
      let (d, s') = next get_char s in
      let more = match_branches bs (buffer ++ c ∷ []) d s' in
      if not (isalnum d) then keyword k (back s') else more

  pub match_branches : Branches → Bytes → ℕ → MemorySource → Matched
  match_branches other buffer d s = not_keyword buffer d s
  match_branches (branch x t bs) buffer d s =
      let here = match_letters t buffer d s in
      let rest = match_branches bs buffer d s in if d == x then here else rest

-- The errors that `lexerError` prints and counts; a run of the lexer lists them in order.
pub data LexError : Type 0 where
  ill_suffix ill_char_in_hex ill_char_in_oct icon_too_big : LexError
  ill_flo_suffix floating_overflow ill_token : LexError
  string_too_long string_meet_newline char_con_too_long : LexError
