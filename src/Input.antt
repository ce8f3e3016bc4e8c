-- ===== src/Input.antt =====
-- lib/lex/input.cc and includes/lex/input.h: the sources that the lexer reads.
--
-- A buffer is the list of its bytes with no terminator: a read at its length gives the NUL that
-- `fill` writes there. A byte is a number below 256. `buf == nullptr` is `none`. The objects are
-- values that each method returns anew. `line`, `column` and `last_col` are
-- of type `int`, 32 bits: `line` is its bit pattern and starts at 1, and `column`, which is
-- decremented with no test, an integer. Where they overflow they wrap around. A `FILE` of the C library is the
-- bytes not read yet with the end-of-file flag: `fread` delivers what there is, up to the number
-- asked for, and sets the flag if that was less.
pub mod Bounds
pub mod Fill
pub mod View
pub mod Stream
use wxcc.Base.{
  ℕ, ◌+◌, ◌-◌, ◌%◌, ◌^◌, zero, suc, Bool, true, false, ◌&&◌, not, Option, none, some, List, [],
  ◌++◌, Bytes, length, get_or, set, take, drop, ℤ, pos, negsuc, suc_ℤ, pred_ℤ, ltb, ◌==◌,
  if◌then◌else◌,
}

pub data GetType : Type 0 where
  get_char push_back look_ahead : GetType

-- `LexInputSource` and `MemoryLexInputSource` in one object; `end` is an offset into `buf`.
pub record MemorySource : Type 0 where
  pub line : ℕ
  pub column : ℤ
  pub buf : Option Bytes
  pub end : ℕ
  pub pointer : ℕ
  pub bufsize : ℕ
  pub last_col : ℤ

-- The two constructors.
abbrev pub new_source : MemorySource
new_source = record {
  line = 1;
  column = pos 0;
  buf = none;
  end = 0;
  pointer = 0;
  bufsize = 0;
  last_col = pos 1;
}

-- `position()`; the file's name is not modelled.
pub record Position : Type 0 where
  pub line : ℕ
  pub place : ℤ

abbrev pub position : MemorySource → Position
position s = record { line = s.line; place = s.column }

-- `column++` and `column--` on an `int`.
unfoldable pub int_succ : ℤ → ℤ
int_succ (pos n) = if n == 0x7fff_ffff then negsuc 0x7fff_ffff else pos (n + 1)
int_succ (negsuc n) = suc_ℤ (negsuc n)

unfoldable pub int_pred : ℤ → ℤ
int_pred (pos n) = pred_ℤ (pos n)
int_pred (negsuc n) = if n == 0x7fff_ffff then pos 0x7fff_ffff else negsuc (n + 1)

-- `line > 1`, on the bit pattern.
abbrev pub above_one : ℕ → Bool
above_one n = ltb 1 n && ltb n (2 ^ 31)

-- The step over a byte that was read.
unfoldable pub advance : ℕ → MemorySource → MemorySource
unfolding int_succ
advance c s =
    if c == b'\n'
    then record s {
      line = (s.line + 1) % 2 ^ 32;
      last_col = s.column;
      column = pos 0;
      pointer = s.pointer + 1;
    }
    else record s { column = int_succ s.column; pointer = s.pointer + 1 }

-- The step back onto the byte `d` before the pointer.
unfoldable pub retreat : ℕ → MemorySource → MemorySource
unfolding int_pred
retreat d s =
    if d == b'\n'
    then (if above_one s.line
        then record s { pointer = s.pointer - 1; line = s.line - 1; column = s.last_col }
        else record s { pointer = s.pointer - 1 })
    else record s { pointer = s.pointer - 1; column = int_pred s.column }

unfoldable pub move : GetType → Bytes → MemorySource → MemorySource
unfolding advance retreat
move get_char b s = let c = get_or b s.pointer 0 in if not (c == 0) then advance c s else s
move push_back b s = if ltb 0 s.pointer then retreat (get_or b (s.pointer - 1) 0) s else s
move look_ahead b s = s

unfoldable pub next_in : Option Bytes → GetType → MemorySource → ℕ × MemorySource
unfolding move
next_in none t s = (0, s)
next_in (some b) t s = (get_or b s.pointer 0, move t b s)

-- `MemoryLexInputSource::next`: the byte at the pointer as it was, and the source after the call.
unfoldable pub next : GetType → MemorySource → ℕ × MemorySource
unfolding next_in
next t s = next_in s.buf t s

abbrev pub uint32_mod : ℕ
uint32_mod = 2 ^ 32

-- The end of `fill`: the terminator at `nbs`, and the fields that follow from it.
unfoldable pub terminate : Bytes → ℕ → MemorySource → MemorySource
terminate b nbs s = record s { buf = some (set b nbs 0); pointer = 0; end = nbs; bufsize = nbs }

-- The three ways to join the bytes kept and the bytes brought; `nbs` is a `uint32_t`.
unfoldable pub fill_buf : Option Bytes → Bytes → MemorySource → MemorySource
unfolding terminate
fill_buf none xs s = terminate xs (length xs % uint32_mod) s
fill_buf (some b) xs s =
    if s.pointer == 0
    then terminate (take s.bufsize b ++ xs) ((s.bufsize + length xs) % uint32_mod) s
    else (let saved = s.end - s.pointer in
        terminate (take saved (drop s.pointer b) ++ xs) ((saved + length xs) % uint32_mod) s)

-- `MemoryLexInputSource::fill`
unfoldable pub fill : Bytes → MemorySource → MemorySource
unfolding fill_buf
fill xs s = fill_buf s.buf xs s

pub record File : Type 0 where
  pub rest : Bytes
  pub eof : Bool

-- `fread(buf, 1, n, fp)`
unfoldable pub fread : ℕ → File → Bytes × File
fread n f = (
  take n f.rest,
  record { rest = drop n f.rest; eof = if ltb (length f.rest) n then true else f.eof },
)

pub record FileSource : Type 0 where
  pub memory : MemorySource
  pub fp : File

abbrev pub buffsize : ℕ
buffsize = 4096

-- `FileLexInputSource::openFile` of a file that can be opened, with the given contents.
abbrev pub open_file : Bytes → FileSource
open_file xs = record { memory = new_source; fp = record { rest = xs; eof = false } }

-- `FileLexInputSource::fillBuffer`; its result is used nowhere.
unfoldable pub fill_buffer : FileSource → FileSource
unfolding fread fill
fill_buffer s = let (xs, f) = fread buffsize s.fp in record { memory = fill xs s.memory; fp = f }

-- The second call of `FileLexInputSource::next`, if the first one asks for it.
unfoldable pub retry : Bool → GetType → ℕ → FileSource → ℕ × FileSource
unfolding next fill_buffer
retry true t c s =
    let u = fill_buffer s in let (d, m) = next t u.memory in (d, record u { memory = m })
retry false t c s = (c, s)

-- `FileLexInputSource::next`: at a NUL the buffer is filled and the call made once more.
unfoldable pub next_file : GetType → FileSource → ℕ × FileSource
unfolding retry
next_file t s =
    let (c, m) = next t s.memory in retry (c == 0 && not s.fp.eof) t c (record s { memory = m })
