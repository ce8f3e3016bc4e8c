-- ===== src/Input/Stream/Reads.antt =====
-- The bytes of a file, through the lexer's three ways to ask for one.
use wxcc.Base.{
  ℕ, zero, suc, ◌+◌, ◌<◌, ◌≢◌, false, not, ◌&&◌, [], ◌∷◌, ◌++◌, Bytes, length, take, ◌≡◌, refl, ap,
  ◌^◌, ap₂, sym, subst, ◌∙◌, arith, pos, length-append, take-suc, append_assoc, append-nil, ◌==◌,
  Bool-cases, ◌⊎◌, inl, inr,
}
use wxcc.Input.{
  get_char, push_back, look_ahead, MemorySource, next, advance, FileSource, fill_buffer, next_file,
  retry, open_file, buffsize,
}
use wxcc.Input.Fill.{unread}
use wxcc.Input.View.{
  Views, Views-InInt, unmoved, advance_bufsize, advance-Views, unmoved-Views, next-get_char,
  next-push_back, next-look_ahead, next_at_end, newlines, column_from,
}
use wxcc.Input.Stream.{
  Sees, fill_buffer-Sees, next-push_back_start, next_file-retry, next_file-next, next_file_refill,
}

List-cases : (xs : Bytes) → (xs ≡ []) ⊎ ((x : ℕ) × (ys : Bytes) × (xs ≡ x ∷ ys))
List-cases [] = inl refl
List-cases (x ∷ xs) = inr (x, xs, refl)

pushed-Sees :
    {read rest : Bytes} (s : FileSource) (m : MemorySource) {d : ℕ}
    → next push_back s.memory ≡ (d, m)
    → Sees read rest (record s { memory = m })
    → Sees read rest (next_file push_back s).1
unfolding retry
pushed-Sees s m {d} e v = elim (Bool-cases (d == 0 && not s.fp.eof)) [
  | inl again ↦
      let (sees, start, _) = fill_buffer-Sees (record s { memory = m }) v in
      rw
        (
          next_file-retry push_back s e again,
          next-push_back_start (fill_buffer (record s { memory = m })).memory start,
        )
        sees
  | inr done ↦ rw (next_file-next push_back s e done) v
]

unmoved-Sees :
    {read rest : Bytes} (c : ℕ) (s : FileSource)
    → Sees read rest s
    → Sees read rest (record s { memory = unmoved c s.memory })
unmoved-Sees c s v = record {
  pending = v.pending;
  memory_is = unmoved-Views c s.memory v.memory_is;
  rest_is = v.rest_is;
  at_eof = v.at_eof;
  small = v.small;
  fits = v.fits;
}

-- In front of a byte, the source after the block with that byte was brought.
record Front (read rest : Bytes) (c : ℕ) (s u : FileSource) : Type 0 where
  sees : Sees read (c ∷ rest) u
  pending : Bytes
  pending_is : sees.pending ≡ c ∷ pending
  gets : next_file get_char s ≡ (c, record u { memory = advance c u.memory })
  looks : next_file look_ahead s ≡ (c, u)

module _ {read rest : Bytes} {c : ℕ} where
  -- With a byte in the buffer, reading is reading from the buffer.
  buffered-Sees :
      (s : FileSource) (v : Sees read (c ∷ rest) s) (pending : Bytes)
      → v.pending ≡ c ∷ pending
      → Sees (read ++ c ∷ []) rest (record s { memory = advance c s.memory })
  buffered-Sees s v pending e =
      let view : Views read (c ∷ pending) s.memory =
        subst (λ p. Views read p s.memory) e v.memory_is in
      let rest_is : c ∷ rest ≡ c ∷ (pending ++ s.fp.rest) =
        v.rest_is ∙ ap (λ p. p ++ s.fp.rest) e in
      record {
        pending = pending;
        memory_is = advance-Views s.memory view;
        rest_is = cc;
        at_eof = v.at_eof;
        small = omega (arith, advance_bufsize c s.memory, length-append {0} read (c ∷ []));
        fits = omega (arith, v.fits, length-append {0} read (c ∷ []));
      }

  Front-here :
      (s : FileSource) (v : Sees read (c ∷ rest) s) (pending : Bytes)
      → v.pending ≡ c ∷ pending
      → c ≢ 0
      → Front read rest c s s
  Front-here s v p e nz =
      let u = v.memory_is.rest_is ∙ e in
      record {
        sees = v;
        pending = p;
        pending_is = e;
        gets = next_file-next get_char s (next-get_char s.memory u nz) (ground arith);
        looks = next_file-next look_ahead s (next-look_ahead s.memory u) (ground arith);
      }

  Front-refilled :
      (s : FileSource) (v : Sees read (c ∷ rest) s)
      → v.pending ≡ []
      → c ≢ 0
      → Front read rest c s (fill_buffer s)
  Front-refilled s v e nz =
      let on_disk : c ∷ rest ≡ s.fp.rest = v.rest_is ∙ ap (λ x. x ++ s.fp.rest) e in
      let more : s.fp.eof ≡ false = elim (Bool-cases s.fp.eof) [
        | inl end ↦ cc (v.at_eof end)
        | inr more ↦ more
      ] in
      let empty : unread s.memory ≡ [] = v.memory_is.rest_is ∙ e in
      let (sees, _, left) = fill_buffer-Sees s v in
      let block : unread (fill_buffer s).memory ≡ c ∷ take 4095 rest =
        left
        ∙ ap (λ x. x ++ take buffsize s.fp.rest) e
        ∙ ap (take buffsize) (sym on_disk)
        ∙ take-suc 4095 c rest in
      let at_end = next_at_end s.memory empty in
      let m = (fill_buffer s).memory in
      record {
        sees = sees;
        pending = take 4095 rest;
        pending_is = sym sees.memory_is.rest_is ∙ block;
        gets =
            next_file_refill get_char s at_end.0 more
            ∙ ap (λ (r : ℕ × MemorySource). (r.0, record (fill_buffer s) { memory = r.1 }))
                (next-get_char m block nz);
        looks =
            next_file_refill look_ahead s at_end.1 more
            ∙ ap (λ (r : ℕ × MemorySource). (r.0, record (fill_buffer s) { memory = r.1 }))
                (next-look_ahead m block);
      }

  front :
      (s : FileSource) → Sees read (c ∷ rest) s → c ≢ 0 → (u : FileSource) × Front read rest c s u
  front s v nz = elim (List-cases v.pending) [
    | inl e ↦ (fill_buffer s, Front-refilled s v e nz)
    | inr (d, p, e) ↦
        let same : c ∷ rest ≡ d ∷ (p ++ s.fp.rest) = v.rest_is ∙ ap (λ x. x ++ s.fp.rest) e in
        (s, Front-here s v p (cc) nz)
  ]

  -- What the lexer asks of a file of fewer than 2 ^ 31 - 1 bytes, in front of one other than NUL:
  -- `GET_CHAR` returns it and moves over it, a `PUSH_BACK` after that gives the byte and the position
  -- back, and `LOOK_AHEAD` returns it and nothing is lost.
  pub next_file-Sees :
      (s : FileSource)
      → Sees read (c ∷ rest) s
      → c ≢ 0
      → ((next_file get_char s).0 ≡ c)
        × Sees (read ++ c ∷ []) rest (next_file get_char s).1
        × Sees read (c ∷ rest) (next_file push_back (next_file get_char s).1).1
        × ((next_file look_ahead s).0 ≡ c)
        × Sees read (c ∷ rest) (next_file look_ahead s).1
  next_file-Sees s v nz =
      let (u, f) = front s v nz in
      rw (f.gets, f.looks)
        (
          refl,
          buffered-Sees u f.sees f.pending f.pending_is,
          pushed-Sees (record u { memory = advance c u.memory }) (unmoved c u.memory)
              (ap (λ (m : MemorySource). ((next push_back (advance c u.memory)).0, m))
                (next-push_back u.memory (f.sees.memory_is.rest_is ∙ f.pending_is) (
                  Views-InInt u.memory
                    (subst (λ p. Views read p u.memory) f.pending_is f.sees.memory_is))))
              (unmoved-Sees c u f.sees),
          refl,
          f.sees,
        )

nil_of_append : (xs ys : Bytes) → [] ≡ xs ++ ys → xs ≡ []
nil_of_append [] ys e = refl
nil_of_append (x ∷ xs) ys e = cc

unread_at_end : {read : Bytes} (s : FileSource) → Sees read [] s → unread s.memory ≡ []
unread_at_end s v = v.memory_is.rest_is ∙ nil_of_append _ _ v.rest_is

-- With nothing left, `GET_CHAR` returns NUL, and nothing is there to read after it either.
pub next_file_end :
    {read : Bytes} (s : FileSource)
    → Sees read [] s
    → ((next_file get_char s).0 ≡ 0) × Sees read [] (next_file get_char s).1
next_file_end s v =
    let here = (next_at_end s.memory (unread_at_end s v)).0 in
    elim (Bool-cases s.fp.eof) [
      | inl end ↦ rw (next_file-next get_char s here (ground arith)) (refl, v)
      | inr more ↦
          let sees = (fill_buffer-Sees s v).0 in
          rw
            (
              next_file_refill get_char s here more,
              (next_at_end (fill_buffer s).memory (unread_at_end (fill_buffer s) sees)).0,
            )
            (refl, sees)
    ]

pub open_file-Sees : (xs : Bytes) → length xs + 1 < 2 ^ 31 → Sees [] xs (open_file xs)
open_file-Sees xs h = record {
  pending = [];
  memory_is = record {
    valid = omega arith;
    rest_is = refl;
    line_is = refl;
    column_is = refl;
    in_int = omega arith;
  };
  rest_is = refl;
  at_eof = λ e. cc;
  small = omega arith;
  fits = omega arith;
}

-- `n` calls with `GET_CHAR`: the bytes returned, and the source after them.
unfoldable pub get_chars : ℕ → FileSource → Bytes × FileSource
get_chars zero s = ([], s)
get_chars (suc n) s =
    let (c, s') = next_file get_char s in let (cs, s'') = get_chars n s' in (c ∷ cs, s'')

abbrev pub NoNul : Bytes → Type 0
NoNul [] = Unit
NoNul (c ∷ cs) = (c ≢ 0) × NoNul cs

get_chars-Sees :
    {read : Bytes} (xs : Bytes) (s : FileSource)
    → Sees read xs s
    → NoNul xs
    → ((get_chars (length xs) s).0 ≡ xs) × Sees (read ++ xs) [] (get_chars (length xs) s).1
unfolding get_chars
get_chars-Sees [] s v h = (refl, rw append-nil v)
get_chars-Sees {read} (c ∷ xs) s v h =
    let t = next_file-Sees s v h.0 in
    let rest = get_chars-Sees xs (next_file get_char s).1 t.1 h.1 in
    (
      ap₂ ◌∷◌ t.0 rest.0,
      subst (λ r. Sees r [] (get_chars (length xs) (next_file get_char s).1).1)
          (append_assoc read (c ∷ []) xs) rest.1,
    )

-- A file without NUL bytes, of fewer than 2 ^ 31 - 1 bytes, comes out whole and in order, whatever
-- its number of blocks; the line and the column after it are those of its text, and the next read is
-- a NUL.
pub get_chars-open_file :
    (xs : Bytes)
    → NoNul xs
    → length xs + 1 < 2 ^ 31
    → let (cs, s) = get_chars (length xs) (open_file xs) in
      (cs ≡ xs)
      × (s.memory.line ≡ 1 + newlines xs)
      × (s.memory.column ≡ pos (column_from 0 xs))
      × ((next_file get_char s).0 ≡ 0)
get_chars-open_file xs h fits =
    let (all, v) = get_chars-Sees xs (open_file xs) (open_file-Sees xs fits) h in
    (all, v.memory_is.line_is, v.memory_is.column_is, (next_file_end _ v).0)
