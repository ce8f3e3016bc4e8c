-- ===== src/Parser/Declarators/Freed.antt =====
-- lib/parser/decl.cc: declarators read texts and numbers of tokens that have been freed.
use wxcc.Token.{Token}
