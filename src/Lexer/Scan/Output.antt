-- ===== src/Lexer/Scan/Output.antt =====
-- lib/lex/output.cc: `LexOutput::output`, which prints the type and the value of each token.
use wxcc.Base.{ℕ, zero, suc, List, [], ◌∷◌}
use wxcc.Lexer.{Run, ok, out_of_fuel, ◌>>=◌}
use wxcc.Lexer.Numbers.Floats.{CLibrary}
use wxcc.Lexer.Scan.{Scanner, get_next_token}
use wxcc.Token.{TokenValue, none_token}

-- A token that is none ends the loop.
unfoldable pub print_then : TokenValue → Run (List TokenValue) → Run (List TokenValue)
print_then none_token rest = ok []
print_then v rest = rest >>= λ vs. ok (v ∷ vs)

-- What is printed; `fuel` is for each token, and there are fewer than `n`.
unfoldable pub output : CLibrary → ℕ → ℕ → Scanner → Run (List TokenValue)
unfolding get_next_token print_then
output lib fuel zero l = out_of_fuel
output lib fuel (suc n) l = do
  (t, l') ← get_next_token lib fuel l
  print_then t.token_value (output lib fuel n l')
