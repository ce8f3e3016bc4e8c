-- ===== src/Lexer/Letter.antt =====
-- lib/lex/lex.cc: `Lex::letter` and `Lex::parseLetter`.
pub mod Longest
use wxcc.Base.{ℕ, [], Bool, false, ◌||◌, ◌==◌, if◌then◌else◌}
use wxcc.Input.{MemorySource, position}
use wxcc.Token.{Keyword, key_sizeof, op_sizeof, TokenValue, key, op, Token}
use wxcc.Lexer.{
  Run, ok, assertion, Branches, other, branch, ◌>>=◌, Matched, keyword, not_keyword, match_branches,
  identifier,
}
use wxcc.Lexer.Keywords.{letters}

after_match : ℕ → Matched → Run (Token × MemorySource)
after_match fuel (keyword k s) = ok (record { token_value = key k; token_pos = position s }, s)
after_match fuel (not_keyword buffer c s) = identifier fuel buffer c s

unfoldable pub has_case : ℕ → Branches → Bool
has_case c other = false
has_case c (branch x t bs) = c == x || has_case c bs

-- `Lex::letter`; a byte with no case of its own is `assert(0)`.
unfoldable pub letter : ℕ → ℕ → MemorySource → Run (Token × MemorySource)
unfolding after_match has_case
letter fuel peek s =
    if has_case peek letters then after_match fuel (match_branches letters [] peek s) else assertion

-- `sizeof` is an operator.
abbrev pub reclassify : TokenValue → TokenValue
reclassify (key key_sizeof) = op op_sizeof
reclassify v = v

-- `Lex::parseLetter`
unfoldable pub parse_letter : ℕ → ℕ → MemorySource → Run (Token × MemorySource)
parse_letter fuel peek s = do
  (t, s') ← letter fuel peek s
  ok (record t { token_value = reclassify t.token_value }, s')
