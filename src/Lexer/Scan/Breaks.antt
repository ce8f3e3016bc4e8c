-- ===== src/Lexer/Scan/Breaks.antt =====
-- lib/lex/lex.cc: `Lex::getNextToken` goes on behind newlines and lines that begin with `#`.
use wxcc.Base.{
  ℕ, zero, suc, ◌+◌, ◌<◌, ◌≤◌, ◌≢◌, false, ◌||◌, List, [], ◌∷◌, ◌++◌, Bytes, length, length-append,
  ◌≡◌, refl, ap, subst, ◌∙◌, arith, ◌==◌, lt→ltb, append_assoc,
}
use wxcc.Input.{MemorySource, advance}
use wxcc.Input.View.{Views, next-get_char, advance-Views}
use wxcc.Lexer.{ok, ◌>>=◌, tmpbuffer_size, resynch}
use wxcc.Lexer.Numbers.Floats.{CLibrary}
use wxcc.Lexer.Scan.{Scanner, at_source, kind_of, of_kind, skip_kind, line_kind, get_next_token}
use wxcc.Lexer.Scan.Dispatch.{get_next_token-Dispatches}
use wxcc.Lexer.Scan.Signs.{Behind}
use wxcc.Lexer.Scan.Yields.{stands}

-- A newline, or a line for a preprocessor behind its `#`.
pub data Break : Type 0 where
  newline : Break
  directive : Bytes → Break

abbrev pub break_bytes : Break → Bytes
break_bytes newline = b'\n' ∷ []
break_bytes (directive w) = b'#' ∷ (w ++ b'\n' ∷ [])

abbrev pub AllInLine : Bytes → Type 0
AllInLine [] = Unit
AllInLine (c ∷ cs) = ((c == b'\n' || c == 0) ≡ false) × AllInLine cs

abbrev pub IsBreak : Break → Type 0
IsBreak newline = Unit
IsBreak (directive w) = AllInLine w × (length w < tmpbuffer_size)

abbrev pub Gap : Type 0
Gap = List Break

abbrev pub gap_bytes : Gap → Bytes
gap_bytes [] = []
gap_bytes (b ∷ g) = break_bytes b ++ gap_bytes g

abbrev pub IsGap : Gap → Type 0
IsGap [] = Unit
IsGap (b ∷ g) = IsBreak b × IsGap g

in_line : (c : ℕ) → (c == b'\n' || c == 0) ≡ false → ((c == b'\n') ≡ false) × (c ≢ 0)
in_line c h = ground arith

-- `resynch` reads on to the end of the line.
resynch-Views :
    (fuel i : ℕ) (read w rest : Bytes) (s : MemorySource)
    → AllInLine w
    → Views read (w ++ b'\n' ∷ rest) s
    → i + length w < tmpbuffer_size
    → length w < fuel
    → (s' : MemorySource) × (resynch fuel i s ≡ ok s') × Views (read ++ (w ++ b'\n' ∷ [])) rest s'
unfolding resynch
resynch-Views zero i read w rest s a v l h = absurd (omega arith)
resynch-Views (suc fuel) i read [] rest s a v l h =
    rw (next-get_char s v.rest_is (omega arith), lt→ltb i tmpbuffer_size (omega arith))
      (advance b'\n' s, refl, advance-Views s v)
resynch-Views (suc fuel) i read (c ∷ w) rest s a v l h =
    let (n, nz) = in_line c a.0 in
    let (s', e, v') =
      resynch-Views fuel (i + 1) (read ++ c ∷ []) w rest (advance c s) a.1 (advance-Views s v)
        (omega arith) (omega arith) in
    (
      s',
      rw (next-get_char s v.rest_is nz, lt→ltb i tmpbuffer_size (omega arith), n) e,
      subst (λ p. Views p rest s') (append_assoc read (c ∷ []) (w ++ b'\n' ∷ [])) v',
    )

-- `getNextToken` goes on in front of `rest`, with one round less.
pub record GoesOn (lib : CLibrary) (fuel : ℕ) (rounds : ℕ) (l : Scanner) (rest : Bytes)
    : Type 0 where
  pub after : Scanner
  pub same : get_next_token lib (rounds + fuel) l ≡ get_next_token lib fuel after
  pub no_error : after.errors ≡ l.errors
  pub behind : Behind rest after.source

newline-kind : kind_of b'\n' ≡ skip_kind
unfolding kind_of
newline-kind = refl

hash-kind : kind_of b'#' ≡ line_kind
unfolding kind_of
hash-kind = refl

break-GoesOn :
    (lib : CLibrary) (fuel : ℕ) (b : Break) (l : Scanner) (rest : Bytes)
    → IsBreak b
    → Behind (break_bytes b ++ rest) l.source
    → length (break_bytes b) ≤ fuel
    → (l' : Scanner) × (get_next_token lib (suc fuel) l ≡ get_next_token lib fuel l')
      × (l'.errors ≡ l.errors)
      × Behind rest l'.source
unfolding of_kind
break-GoesOn lib fuel newline l rest i b h =
    let (read, s, e, v) =
      get_next_token-Dispatches lib fuel l b'\n' rest (refl, omega arith) b (omega arith) in
    (at_source (advance b'\n' s) l, rw (e, newline-kind) refl, refl, stands (advance-Views s v))
break-GoesOn lib fuel (directive w) l rest (a, room) b h =
    let size = length-append {0} w (b'\n' ∷ []) in
    let b' = subst (λ p. Behind (b'#' ∷ p) l.source) (append_assoc w (b'\n' ∷ []) rest) b in
    let (read, s, e, v) =
      get_next_token-Dispatches lib fuel l b'#' (w ++ b'\n' ∷ rest) (refl, omega arith) b'
        (omega arith) in
    let (s', f, v') =
      resynch-Views (suc fuel) 0 (read ++ b'#' ∷ []) w rest (advance b'#' s) a (advance-Views s v)
        (omega arith) (omega arith) in
    (
      at_source s' l,
      rw (e, hash-kind) (ap (λ r. r >>= λ t. get_next_token lib fuel (at_source t l)) f),
      refl,
      stands v',
    )

break_nonempty : (b : Break) → 0 < length (break_bytes b)
break_nonempty newline = omega arith
break_nonempty (directive w) = omega arith

pub length-gap_bytes : (g : Gap) → length g ≤ length (gap_bytes g)
length-gap_bytes [] = omega arith
length-gap_bytes (b ∷ g) =
    let some_byte = break_nonempty b in
    let ih = length-gap_bytes g in omega (arith, length-append {0} (break_bytes b) (gap_bytes g))

-- `getNextToken` in front of newlines and lines that begin with `#` gives what it gives behind them.
pub gap-GoesOn :
    (lib : CLibrary) (fuel : ℕ) (g : Gap) (l : Scanner) (rest : Bytes)
    → IsGap g
    → Behind (gap_bytes g ++ rest) l.source
    → length (gap_bytes g) < length g + fuel
    → GoesOn lib fuel (length g) l rest
gap-GoesOn lib fuel [] l rest i b h = record {
  after = l;
  same = ap (λ n. get_next_token lib n l) (omega arith);
  no_error = refl;
  behind = b;
}
gap-GoesOn lib fuel (x ∷ g) l rest (i, is) b h =
    let size = length-append {0} (break_bytes x) (gap_bytes g) in
    let b' = subst (λ p. Behind p l.source) (append_assoc (break_bytes x) (gap_bytes g) rest) b in
    let (l', e, c, b'') =
      break-GoesOn lib (length g + fuel) x l (gap_bytes g ++ rest) i b' (omega arith) in
    let some_byte = break_nonempty x in
    let more = gap-GoesOn lib fuel g l' rest is b'' (omega arith) in
    record {
      after = more.after;
      same = ap (λ n. get_next_token lib n l) (omega arith) ∙ (e ∙ more.same);
      no_error = more.no_error ∙ c;
      behind = more.behind;
    }
