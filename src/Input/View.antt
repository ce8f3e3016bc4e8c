-- ===== src/Input/View.antt =====
-- A memory source as a stream: what is left to read, and the position as a function of what was
-- read.
use wxcc.Base.{
  ℕ, suc, ◌+◌, ◌<◌, ◌≤◌, ◌^◌, ◌≢◌, ℤ, false, length, length-append, Option, none, some, [], ◌∷◌,
  ◌++◌, Bytes, ◌≡◌, refl, ap, sym, ◌∙◌, arith, pos, pred-suc_ℤ, get_or-drop, get_or-drop_nil, ◌==◌,
  if◌then◌else◌,
}
use wxcc.Input.{
  next_in, get_char, push_back, look_ahead, MemorySource, next, advance, retreat, int_pred,
  int_succ,
}
use wxcc.Input.Bounds.{InBuffer, IsValid}
use wxcc.Input.Fill.{unread_in, unread}

-- The number of newlines, and the number of bytes behind the last one.
abbrev pub newlines : Bytes → ℕ
newlines [] = 0
newlines (c ∷ cs) = (if c == b'\n' then 1 else 0) + newlines cs

abbrev pub column_from : ℕ → Bytes → ℕ
column_from n [] = n
column_from n (c ∷ cs) = column_from (if c == b'\n' then 0 else n + 1) cs

newlines-concat :
    (xs : Bytes) (c : ℕ) → newlines (xs ++ c ∷ []) ≡ newlines xs + (if c == b'\n' then 1 else 0)
newlines-concat [] c = ground arith
newlines-concat (x ∷ xs) c = ground (arith, newlines-concat xs c)

column_from-concat :
    (n : ℕ) (xs : Bytes) (c : ℕ)
    → column_from n (xs ++ c ∷ []) ≡ (if c == b'\n' then 0 else column_from n xs + 1)
column_from-concat n [] c = refl
column_from-concat n (x ∷ xs) c = column_from-concat (if x == b'\n' then 0 else n + 1) xs c

-- `read` is all that was read from the source so far, and `rest` is what the buffer still holds.
pub record Views (read rest : Bytes) (s : MemorySource) : Type 0 where
  pub valid : IsValid s
  pub rest_is : unread s ≡ rest
  pub line_is : s.line ≡ 1 + newlines read
  pub column_is : s.column ≡ pos (column_from 0 read)
  pub in_int : length read + length rest + 1 < 2 ^ 31

newlines-length : (xs : Bytes) → newlines xs ≤ length xs
newlines-length [] = omega arith
newlines-length (x ∷ xs) = ground (arith, newlines-length xs)

column_from-length : (n : ℕ) (xs : Bytes) → column_from n xs ≤ n + length xs
column_from-length n [] = omega arith
column_from-length n (x ∷ xs) =
    ground (arith, column_from-length 0 xs, column_from-length (n + 1) xs)

-- The position is not at the end of an `int`.
pub record InInt (s : MemorySource) : Type 0 where
  pub positive : 0 < s.line
  pub line_small : s.line + 1 < 2 ^ 31
  pub column : ℕ
  pub column_is : s.column ≡ pos column
  pub column_small : column + 1 < 2 ^ 31

pub Views-InInt : {read rest : Bytes} {c : ℕ} (s : MemorySource) → Views read (c ∷ rest) s → InInt s
Views-InInt {read} {rest} s v = record {
  positive = v.valid.1;
  line_small = omega (arith, v.line_is, v.in_int, newlines-length read);
  column = column_from 0 read;
  column_is = v.column_is;
  column_small = omega (arith, v.in_int, column_from-length 0 read);
}

module _ {c : ℕ} {rest : Bytes} where
  get_char_in :
      (o : Option Bytes) (s : MemorySource)
      → unread_in o s.pointer ≡ c ∷ rest
      → c ≢ 0
      → next_in o get_char s ≡ (c, advance c s)
  unfolding next_in
  get_char_in none s u nz = cc
  get_char_in (some b) s u nz = ground (arith, (get_or-drop b s.pointer 0 u).0)

  pub next-get_char :
      (s : MemorySource) → unread s ≡ c ∷ rest → c ≢ 0 → next get_char s ≡ (c, advance c s)
  unfolding next
  next-get_char s u nz = get_char_in s.buf s u nz

  look_ahead_in :
      (o : Option Bytes) (s : MemorySource)
      → unread_in o s.pointer ≡ c ∷ rest
      → next_in o look_ahead s ≡ (c, s)
  unfolding next_in
  look_ahead_in none s u = cc
  look_ahead_in (some b) s u = rw (get_or-drop b s.pointer 0 u).0

  pub next-look_ahead : (s : MemorySource) → unread s ≡ c ∷ rest → next look_ahead s ≡ (c, s)
  unfolding next
  next-look_ahead s u = look_ahead_in s.buf s u

at_end_in :
    (o : Option Bytes) (s : MemorySource)
    → unread_in o s.pointer ≡ []
    → (next_in o get_char s ≡ (0, s)) × (next_in o look_ahead s ≡ (0, s))
unfolding next_in
at_end_in none s u = (refl, refl)
at_end_in (some b) s u = rw (get_or-drop_nil b s.pointer 0 u) (refl, refl)

pub next_at_end :
    (s : MemorySource) → unread s ≡ [] → (next get_char s ≡ (0, s)) × (next look_ahead s ≡ (0, s))
unfolding next
next_at_end s u = at_end_in s.buf s u

-- The source after `c` was read and pushed back: only the saved column may differ.
abbrev pub unmoved : ℕ → MemorySource → MemorySource
unmoved c s = record s { last_col = if c == b'\n' then s.column else s.last_col }

int_pred-succ : (i : ℤ) (n : ℕ) → i ≡ pos n → n + 1 < 2 ^ 31 → int_pred (int_succ i) ≡ i
unfolding int_pred int_succ
int_pred-succ i n e h =
    let last : (n == 0x7fff_ffff) ≡ false = ground arith in rw (e, last) (pred-suc_ℤ (pos n))

retreat-advance : (c : ℕ) (s : MemorySource) → InInt s → retreat c (advance c s) ≡ unmoved c s
unfolding advance retreat
retreat-advance c s l =
    ground
      (arith, int_pred-succ s.column l.column l.column_is l.column_small, l.line_small, l.positive)

advance_kept :
    (c : ℕ) (s : MemorySource)
    → ((advance c s).buf ≡ s.buf)
      × ((advance c s).pointer ≡ suc s.pointer)
      × ((advance c s).end ≡ s.end)
      × ((advance c s).bufsize ≡ s.bufsize)
unfolding advance
advance_kept c s = ground arith

module _ {c : ℕ} {rest : Bytes} where
  push_back_in :
      (o : Option Bytes) (s : MemorySource)
      → unread_in o s.pointer ≡ c ∷ rest
      → InInt s
      → (next_in o push_back (advance c s)).1 ≡ unmoved c s
  unfolding next_in
  push_back_in none s u l = cc
  push_back_in (some b) s u l =
      ground (arith, (advance_kept c s).1, (get_or-drop b s.pointer 0 u).0, retreat-advance c s)

  -- A byte that was read and is pushed back leaves the source as it was, but for the saved column.
  pub next-push_back :
      (s : MemorySource)
      → unread s ≡ c ∷ rest
      → InInt s
      → (next push_back (advance c s)).1 ≡ unmoved c s
  unfolding next
  next-push_back s u l = rw (advance_kept c s).0 (push_back_in s.buf s u l)

  advance_in :
      (o : Option Bytes) (s : MemorySource)
      → unread_in o s.pointer ≡ c ∷ rest
      → InBuffer o s.pointer s.end s.bufsize
      → let t = advance c s in InBuffer o t.pointer t.end t.bufsize × (unread_in o t.pointer ≡ rest)
  advance_in none s u v = cc
  advance_in (some b) s u v =
      let t = get_or-drop b s.pointer 0 u in let k = advance_kept c s in (omega arith, rw k.1 t.1)

pub advance_bufsize : (c : ℕ) (s : MemorySource) → (advance c s).bufsize ≡ s.bufsize
advance_bufsize c s = (advance_kept c s).3

advance_position :
    (c : ℕ) (s : MemorySource) {n : ℕ}
    → s.column ≡ pos n
    → s.line + 1 < 2 ^ 31
    → n + 1 < 2 ^ 31
    → ((advance c s).line ≡ s.line + (if c == b'\n' then 1 else 0))
      × ((advance c s).column ≡ pos (if c == b'\n' then 0 else n + 1))
unfolding advance int_succ
advance_position c s {n} e l h =
    let next : int_succ s.column ≡ pos (n + 1) = rw e (ground arith) in ground arith

-- Reading a byte moves it from the bytes left to the bytes read, and keeps the position exact.
pub advance-Views :
    {read rest : Bytes} {c : ℕ} (s : MemorySource)
    → Views read (c ∷ rest) s
    → Views (read ++ c ∷ []) rest (advance c s)
advance-Views {read} {c = c} s v =
    let small = Views-InInt s v in
    let (valid, left) = advance_in s.buf s v.rest_is v.valid.0 in
    let (line, column) =
      advance_position c s v.column_is small.line_small
        (omega (arith, v.in_int, column_from-length 0 read)) in
    record {
      valid = (rw (advance_kept c s).0 valid, omega arith);
      rest_is = rw (advance_kept c s).0 left;
      line_is = omega (arith, newlines-concat read c);
      column_is = column ∙ ap pos (sym (column_from-concat 0 read c));
      in_int = omega (arith, v.in_int, length-append {0} read (c ∷ []));
    }

pub unmoved-Views :
    {read rest : Bytes} (c : ℕ) (s : MemorySource)
    → Views read rest s
    → Views read rest (unmoved c s)
unmoved-Views c s v = record {
  valid = v.valid;
  rest_is = v.rest_is;
  line_is = v.line_is;
  column_is = v.column_is;
  in_int = v.in_int;
}

-- In front of a byte other than NUL, on a source with an exact position, whose bytes read and left
-- are fewer than 2 ^ 31 - 1: `GET_CHAR` returns the byte, moves over it and keeps the position
-- exact; `PUSH_BACK` after that restores the source, the position included, but for the saved
-- column, which a newline has set; `LOOK_AHEAD` returns the byte and changes nothing.
pub next-Views :
    {read rest : Bytes} {c : ℕ} (s : MemorySource)
    → Views read (c ∷ rest) s
    → c ≢ 0
    → ((next get_char s).0 ≡ c)
      × Views (read ++ c ∷ []) rest (next get_char s).1
      × Views read (c ∷ rest) (next push_back (next get_char s).1).1
      × ((next push_back (next get_char s).1).1 ≡ unmoved c s)
      × (next look_ahead s ≡ (c, s))
next-Views {c = c} s v nz = rw (next-get_char s v.rest_is nz) (
  refl,
  advance-Views s v,
  rw (next-push_back s v.rest_is (Views-InInt s v)) (unmoved-Views c s v),
  next-push_back s v.rest_is (Views-InInt s v),
  next-look_ahead s v.rest_is,
)
