-- ===== src/Lexer/Strings.antt =====
-- lib/lex/lex.cc: `Lex::parseString`, behind the quote that begins the text.
pub mod Plain
pub mod Unclosed
use wxcc.Base.{
  ℕ, zero, suc, ◌+◌, Bool, true, false, ◌&&◌, List, [], ◌∷◌, ◌++◌, Bytes, length, ltb, ◌==◌,
  if◌then◌else◌,
}
use wxcc.Input.{get_char, look_ahead, MemorySource, next}
use wxcc.Lexer.{
  Run, ok, overflow, out_of_fuel, exited, ◌>>=◌, LexError, string_too_long, string_meet_newline,
  tmpbuffer_size, skip_blank,
}

-- The variables of the loop: what stands in `tmpBuffer` before `tp`, `lengthCount`, and the static
-- `errTimes`, which keeps a text that is too long from being reported twice.
pub record Text : Type 0 where
  pub source : MemorySource
  pub buffer : Bytes
  pub length_count : ℕ
  pub err_times : Bool
  pub errors : List LexError

unfoldable pub store_byte : ℕ → Text → Run Text
store_byte c u =
    if ltb (length u.buffer) tmpbuffer_size
    then ok (record u { buffer = u.buffer ++ c ∷ [] })
    else overflow

-- The start over when `lengthCount` is `TMPBUFFER_SIZE`, with the `lengthCount++` behind it.
abbrev pub start_over : Text → Text
start_over u = record u {
  buffer = [];
  length_count = 1;
  err_times = true;
  errors = if u.err_times then u.errors else u.errors ++ string_too_long ∷ [];
}

abbrev pub counted : Text → Text
counted u = record u { length_count = u.length_count + 1 }

-- A backslash takes a quote behind it along.
unfoldable pub store_char : ℕ → Text → Run Text
unfolding store_byte
store_char t u =
    let (d, s) = next look_ahead u.source in
    let (e, s') = next get_char s in
    let one = store_byte t u in
    let both = store_byte t u >>= λ v. store_byte e (record v { source = s' }) in
    if t == b'\\' && d == b'"' then both else one

-- The body of the loop on the byte `t` that was just got, and whether it was the last one.
unfoldable pub string_byte : ℕ → Text → Run (Bool × Text)
unfolding store_char
string_byte t u =
    let stored = store_char t u >>= λ v. ok (false, counted v) in
    if t == b'"'
    then ok (true, u)
    else if u.length_count == tmpbuffer_size
    then ok (false, start_over u)
    else if t == b'\n'
    then ok (true, record u { errors = u.errors ++ string_meet_newline ∷ [] })
    else if t == 255
    then exited
    else stored

unfoldable pub unless_closed : (Text → Run Text) → Bool × Text → Run Text
unless_closed loop (true, u) = ok u
unless_closed loop (false, u) = loop u

unfoldable pub string_loop : ℕ → Text → Run Text
unfolding string_byte unless_closed
string_loop zero u = out_of_fuel
string_loop (suc fuel) u =
    let (t, s) = next get_char u.source in
    string_byte t (record u { source = s }) >>= unless_closed (string_loop fuel)

-- At a quote the text goes on.
unfoldable pub join_next : (Text → Run Text) → Text → MemorySource → Run Text
join_next loop v s =
    let (c, s') = next look_ahead s in
    let more = loop (record v { source = (next get_char s').1 }) in
    if c == b'"' then more else ok (record v { source = s' })

-- The terminator, and the blanks behind the text.
unfoldable pub close_text : ℕ → (Text → Run Text) → Text → Run Text
unfolding skip_blank join_next
close_text fuel loop v = do
  s ← if ltb (length v.buffer) tmpbuffer_size then skip_blank fuel v.source else overflow
  join_next loop v s

-- `Lex::parseString`: a round for each text that begins behind the one before.
unfoldable pub parse_string : ℕ → Text → Run Text
unfolding string_loop close_text
parse_string zero u = out_of_fuel
parse_string (suc fuel) u = string_loop (suc fuel) u >>= close_text (suc fuel) (parse_string fuel)
