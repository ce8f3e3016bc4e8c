-- ===== src/Tests/Input.antt =====
-- lib/lex/input.cc: runs and instances.
use wxcc.Base.{◌≡◌, refl, [], ◌∷◌, codes, take, drop, pos, arith}
use wxcc.Input.{get_char, push_back, look_ahead, next, fill, next_file, open_file}
use wxcc.Input.Stream.{Sees}
use wxcc.Input.Stream.Reads.{next_file-Sees, open_file-Sees, get_chars, get_chars-open_file}
use wxcc.Input.View.{Views, unmoved, next-Views}
use wxcc.Tests.Sources.{loaded, loaded-Views}

-- The lexer test `MemoryInput`: the second line starts at column 0.
second_line : (get_chars 3 (open_file (codes "a\nbc"))).1.memory.column ≡ pos 1
unfolding get_chars next_file fill take drop
second_line = refl

next-Views_example :
    ((next get_char (loaded (codes "\na"))).0 ≡ b'\n')
    × Views (b'\n' ∷ []) (codes "a") (next get_char (loaded (codes "\na"))).1
    × Views [] (codes "\na") (next push_back (next get_char (loaded (codes "\na"))).1).1
    × ((next push_back (next get_char (loaded (codes "\na"))).1).1
        ≡ unmoved b'\n' (loaded (codes "\na")))
    × (next look_ahead (loaded (codes "\na")) ≡ (b'\n', loaded (codes "\na")))
next-Views_example =
    next-Views (loaded (codes "\na")) (loaded-Views (codes "\na") (omega arith)) (omega arith)

next_file-Sees_example :
    let s = open_file (codes "ab") in
    ((next_file get_char s).0 ≡ b'a')
    × Sees (b'a' ∷ []) (codes "b") (next_file get_char s).1
    × Sees [] (codes "ab") (next_file push_back (next_file get_char s).1).1
    × ((next_file look_ahead s).0 ≡ b'a')
    × Sees [] (codes "ab") (next_file look_ahead s).1
next_file-Sees_example =
    next_file-Sees (open_file (codes "ab")) (open_file-Sees (codes "ab") (omega arith))
      (omega arith)

get_chars-open_file_example :
    let (cs, s) = get_chars 4 (open_file (codes "a\nbc")) in
    (cs ≡ codes "a\nbc")
    × (s.memory.line ≡ 2)
    × (s.memory.column ≡ pos 2)
    × ((next_file get_char s).0 ≡ 0)
get_chars-open_file_example = get_chars-open_file (codes "a\nbc") (omega arith) (omega arith)
