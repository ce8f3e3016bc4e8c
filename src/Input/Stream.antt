-- ===== src/Input/Stream.antt =====
-- A file source as a stream: blocks are invisible to the lexer.
pub mod Reads
use wxcc.Base.{
  ℕ, zero, suc, ◌+◌, ◌≤◌, ◌<◌, ◌≢◌, Bool, true, false, not, ◌&&◌, Option, none, some, [], ◌∷◌, ◌++◌,
  Bytes, length, take, drop, ◌≡◌, refl, ap, ◌^◌, ap₂, sym, subst, ◌∙◌, arith, pos, ltb,
  length-append, length-drop, length-take, drop_all, take-suc, take-append-drop, append_assoc,
  append-nil, ◌==◌, Bool-cases, ◌⊎◌, inl, inr,
}
use wxcc.Input.{
  GetType, get_char, push_back, look_ahead, MemorySource, next, next_in, advance, fill, FileSource,
  fread, fill_buffer, next_file, retry, open_file, buffsize, uint32_mod,
}
use wxcc.Input.Bounds.{InBuffer}
use wxcc.Input.Fill.{unread_in, unread, fill-Filled}
use wxcc.Input.View.{
  Views, unmoved, advance_bufsize, advance-Views, unmoved-Views, next-get_char, next-push_back,
  next-look_ahead, next_at_end, newlines, column_from,
}

-- `read` was read from the file and `rest` is still to come, from the buffer or the disk. The
-- last fields bound the buffer by the file's size, for which an `int` has room.
pub record Sees (read rest : Bytes) (s : FileSource) : Type 0 where
  pub pending : Bytes
  pub memory_is : Views read pending s.memory
  pub rest_is : rest ≡ pending ++ s.fp.rest
  pub at_eof : s.fp.eof ≡ true → s.fp.rest ≡ []
  pub small : s.memory.bufsize ≤ length read + length rest
  pub fits : length read + length rest + 1 < 2 ^ 31

bufsize_in : (o : Option Bytes) (p e n : ℕ) → p ≡ 0 → InBuffer o p e n → n ≡ length (unread_in o p)
bufsize_in none p e n z v = omega arith
bufsize_in (some b) p e n z v = omega (arith, length-drop {0} p b)

-- Filling the buffer changes nothing that the lexer can see.
pub fill_buffer-Sees :
    {read rest : Bytes} (s : FileSource) (v : Sees read rest s)
    → Sees read rest (fill_buffer s)
      × ((fill_buffer s).memory.pointer ≡ 0)
      × (unread (fill_buffer s).memory ≡ v.pending ++ take buffsize s.fp.rest)
unfolding fill_buffer fread
fill_buffer-Sees {read} {rest} s v =
    let block : Bytes = take buffsize s.fp.rest in
    let split : block ++ drop buffsize s.fp.rest ≡ s.fp.rest =
      take-append-drop buffsize s.fp.rest in
    let all : rest ≡ (v.pending ++ block) ++ drop buffsize s.fp.rest =
      v.rest_is ∙ ap (λ x. v.pending ++ x) (sym split) ∙ sym (append_assoc v.pending block _) in
    let size : length rest ≡ length (v.pending ++ block) + length (drop buffsize s.fp.rest) =
      ap length all ∙ length-append (v.pending ++ block) _ in
    let f =
      fill-Filled block s.memory v.memory_is.valid
        (omega (arith, v.small, v.fits, length-take {0} buffsize s.fp.rest)) in
    let left : unread (fill block s.memory) ≡ v.pending ++ block =
      f.appended ∙ ap (λ x. x ++ block) v.memory_is.rest_is in
    (
      record {
        pending = v.pending ++ block;
        memory_is = record {
          valid = f.valid;
          rest_is = left;
          line_is = f.line_kept ∙ v.memory_is.line_is;
          column_is = f.column_kept ∙ v.memory_is.column_is;
          in_int = omega (arith, v.fits, size);
        };
        rest_is = all;
        at_eof = λ e. elim (Bool-cases (ltb (length s.fp.rest) buffsize)) [
          | inl short ↦ drop_all _ _ (ground arith)
          | inr long ↦ drop_all _ _ (omega (arith, ap length (v.at_eof (rw long at e))))
        ];
        small = omega (arith, bufsize_in _ _ _ _ f.at_start f.valid.0, ap length left, size);
        fits = v.fits;
      },
      f.at_start,
      left,
    )

pub next-push_back_start : (s : MemorySource) → s.pointer ≡ 0 → (next push_back s).1 ≡ s
unfolding next
next-push_back_start s z = start_in s.buf
  where
    start_in : (o : Option Bytes) → (next_in o push_back s).1 ≡ s
    start_in none = refl
    start_in (some b) = ground arith

pub next_file-retry :
    (t : GetType) (s : FileSource) {c : ℕ} {m : MemorySource} {b : Bool}
    → next t s.memory ≡ (c, m)
    → (c == 0 && not s.fp.eof) ≡ b
    → next_file t s ≡ retry b t c (record s { memory = m })
unfolding next_file
next_file-retry t s {c} {m} e h =
    ap
      (λ (r : ℕ × MemorySource). retry (r.0 == 0 && not s.fp.eof) t r.0 (record s { memory = r.1 }))
      e
    ∙ ap (λ d. retry d t c (record s { memory = m })) h

-- A call that meets no NUL, or comes behind the end of the file, is the call on the buffer.
pub next_file-next :
    (t : GetType) (s : FileSource) {c : ℕ} {m : MemorySource}
    → next t s.memory ≡ (c, m)
    → (c == 0 && not s.fp.eof) ≡ false
    → next_file t s ≡ (c, record s { memory = m })
unfolding retry
next_file-next t s e h = next_file-retry t s e h

pub next_file_refill :
    (t : GetType) (s : FileSource) {m : MemorySource}
    → next t s.memory ≡ (0, m)
    → s.fp.eof ≡ false
    → let u = fill_buffer (record s { memory = m }) in
      next_file t s ≡ ((next t u.memory).0, record u { memory = (next t u.memory).1 })
unfolding retry
next_file_refill t s e h = next_file-retry t s {b = true} e (ground arith)
