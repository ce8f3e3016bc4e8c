-- ===== src/Tests/Sources.antt =====
-- Sources for the tests: a buffer that was just filled, with the view of it.
use wxcc.Base.{◌+◌, ◌<◌, ◌^◌, refl, some, [], Bytes, length, pos, arith, drop-zero}
use wxcc.Input.{MemorySource}
use wxcc.Input.View.{Views}

abbrev pub loaded : Bytes → MemorySource
loaded xs = record {
  line = 1;
  column = pos 0;
  buf = some xs;
  end = length xs;
  pointer = 0;
  bufsize = length xs;
  last_col = pos 1;
}

pub loaded-Views : (xs : Bytes) → length xs + 1 < 2 ^ 31 → Views [] xs (loaded xs)
loaded-Views xs h = record {
  valid = omega arith;
  rest_is = drop-zero xs;
  line_is = refl;
  column_is = refl;
  in_int = omega arith;
}
