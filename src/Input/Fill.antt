-- ===== src/Input/Fill.antt =====
-- `fill` appends to what is left to read.
use wxcc.Base.{
  ℕ, ◌+◌, ◌-◌, ◌%◌, ◌<◌, Option, none, some, [], ◌++◌, Bytes, length, take, drop, ◌≡◌, refl, arith,
  length-append, length-drop, drop-zero, ◌∙◌, set_past_end, take_all, ◌==◌, ==_iff, Bool-cases, inl,
  inr,
}
use wxcc.Input.{MemorySource, terminate, fill_buf, fill, uint32_mod}
use wxcc.Input.Bounds.{InBuffer, IsValid}

-- The bytes from the pointer to the end of the buffer.
abbrev pub unread_in : Option Bytes → ℕ → Bytes
unread_in none p = []
unread_in (some b) p = drop p b

abbrev pub unread : MemorySource → Bytes
unread s = unread_in s.buf s.pointer

-- What `fill` promises.
pub record Filled (xs : Bytes) (s t : MemorySource) : Type 0 where
  pub valid : IsValid t
  pub appended : unread t ≡ unread s ++ xs
  pub at_start : t.pointer ≡ 0
  pub line_kept : t.line ≡ s.line
  pub column_kept : t.column ≡ s.column
  pub last_col_kept : t.last_col ≡ s.last_col

terminate_lem :
    (b : Bytes) (n : ℕ) (s : MemorySource)
    → length b ≡ n
    → n < uint32_mod
    → terminate b (n % uint32_mod) s
      ≡ record s { buf = some b; pointer = 0; end = length b; bufsize = length b }
unfolding terminate
terminate_lem b n s e h =
    let m : n % uint32_mod ≡ length b = omega arith in
    rw m (rw (set_past_end b (length b) 0 (omega arith)))

terminate-Filled :
    (b xs : Bytes) (n : ℕ) (s : MemorySource)
    → 0 < s.line
    → length b ≡ n
    → n < uint32_mod
    → b ≡ unread s ++ xs
    → Filled xs s (terminate b (n % uint32_mod) s)
terminate-Filled b xs n s l e h u = rw (terminate_lem b n s e h) (record {
  valid = omega arith;
  appended = drop-zero b ∙ u;
  at_start = refl;
  line_kept = refl;
  column_kept = refl;
  last_col_kept = refl;
})

fill_buf-Filled :
    (o : Option Bytes) (xs : Bytes) (s : MemorySource)
    → s.buf ≡ o
    → InBuffer o s.pointer s.end s.bufsize
    → 0 < s.line
    → s.bufsize + length xs < uint32_mod
    → Filled xs s (fill_buf o xs s)
unfolding fill_buf
fill_buf-Filled none xs s e v l h = terminate-Filled xs xs _ s l refl (omega arith) (rw e)
fill_buf-Filled (some b) xs s e v l h = elim (Bool-cases (s.pointer == 0)) [
  | inl z ↦
      let p : s.pointer ≡ 0 = (==_iff _ _).0 z in
      let whole = take_all s.bufsize b (omega arith) in
      rw (z, whole)
        (terminate-Filled (b ++ xs) xs _ s l (omega (arith, length-append {0} b xs)) h
          (rw (e, p, drop-zero)))
  | inr nz ↦
      let kept : take (s.end - s.pointer) (drop s.pointer b) ≡ drop s.pointer b =
        take_all _ _ (omega (arith, length-drop {0} s.pointer b)) in
      rw (nz, kept)
        (terminate-Filled (drop s.pointer b ++ xs) xs _ s l
          (omega (arith, length-append {0} (drop s.pointer b) xs, length-drop {0} s.pointer b))
          (omega arith) (rw e))
]

-- `fill` on a valid source, where the bytes kept and brought fit in a `uint32_t`: the bytes
-- brought follow those not read yet, the pointer is at the start of a valid buffer, and the
-- position is as it was.
pub fill-Filled :
    (xs : Bytes) (s : MemorySource)
    → IsValid s
    → s.bufsize + length xs < uint32_mod
    → Filled xs s (fill xs s)
unfolding fill
fill-Filled xs s v h = fill_buf-Filled s.buf xs s refl v.0 v.1 h
