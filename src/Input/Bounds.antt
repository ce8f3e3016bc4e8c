-- ===== src/Input/Bounds.antt =====
-- The pointers of a memory source stay inside its buffer.
use wxcc.Base.{
  ℕ, zero, suc, ◌≤◌, ◌<◌, ◌≢◌, Option, none, some, [], ◌∷◌, Bytes, length, get_or, ◌≡◌, refl, arith,
}
use wxcc.Input.{GetType, get_char, push_back, look_ahead, MemorySource, next_in, next, move}

-- `end` is the end of the buffer, and the pointer does not pass it.
abbrev pub InBuffer : Option Bytes → ℕ → ℕ → ℕ → Type 0
InBuffer none pointer end bufsize = (pointer ≡ 0) × (end ≡ 0) × (bufsize ≡ 0)
InBuffer (some b) pointer end bufsize =
    (pointer ≤ length b) × (end ≡ length b) × (bufsize ≡ length b)

abbrev pub IsValid : MemorySource → Type 0
IsValid s = InBuffer s.buf s.pointer s.end s.bufsize × (0 < s.line)

pub lt-length_of_get_or : (b : Bytes) (n : ℕ) → get_or b n 0 ≢ 0 → n < length b
lt-length_of_get_or [] n h = absurd (h refl)
lt-length_of_get_or (x ∷ b) zero h = omega arith
lt-length_of_get_or (x ∷ b) (suc n) h = omega (arith, lt-length_of_get_or b n h)

-- The buffer of a source and where its pointers are.
abbrev pub IsInside : MemorySource → Type 0
IsInside s = InBuffer s.buf s.pointer s.end s.bufsize

move-IsInside :
    (t : GetType) (b : Bytes) (s : MemorySource)
    → s.buf ≡ some b
    → IsInside s
    → IsInside (move t b s)
unfolding move
move-IsInside get_char b s e v = ground (arith, lt-length_of_get_or b s.pointer)
move-IsInside push_back b s e v = ground arith
move-IsInside look_ahead b s e v = v

next_in-IsInside :
    (o : Option Bytes) (t : GetType) (s : MemorySource)
    → s.buf ≡ o
    → IsInside s
    → IsInside (next_in o t s).1
unfolding next_in
next_in-IsInside none t s e v = v
next_in-IsInside (some b) t s e v = move-IsInside t b s e v

-- Whatever the lexer asks for, a read keeps the pointer inside the buffer, and `end` and `bufsize`
-- at the buffer's end.
pub next-IsInside : (t : GetType) (s : MemorySource) → IsInside s → IsInside (next t s).1
unfolding next
next-IsInside t s v = next_in-IsInside s.buf t s refl v
