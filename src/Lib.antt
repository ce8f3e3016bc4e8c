-- ===== src/Lib.antt =====
-- WXCC, a compiler for a subset of C: its input sources, its scanner, its symbol table,
-- its types and its intermediate code.
--
-- The driver opens a file source, hands it to the lexer, and the parser takes tokens from the
-- lexer one at a time. The modules:
--
-- - Base: tests, lists, and integers shared by the others.
-- - Input (lib/lex/input.cc, includes/lex/input.h): `MemorySource` is MemoryLexInputSource with
--   `next` and `fill`; `FileSource` is FileLexInputSource with `open_file`, `fill_buffer` and
--   `next_file`. A C `FILE` is the bytes left with the end-of-file flag. Bounds has the invariant,
--   Fill and View read a source as a stream with a position, Stream and Stream.Reads do so for
--   files.
-- - Token (includes/lex/constants.h, includes/lex/token.h): keywords, operators, tokens.
-- - Lexer (lib/lex/lex.cc): `skip_blank`, `resynch`, `identifier` and the tests of Lex::letter as
--   a tree, which Lexer.Keywords gives letter by letter; Lexer.Letter is `letter` and
--   `parse_letter`; Lexer.Operators is Lex::operators, where `operator` is its switch.
-- - Lexer.Constants: `get_buffer_until_sp`, `new_number` and `scan_number`, which is Lex::number;
--   Reach, Integer and Fraction say what they read, Repeat what happens at the end of the input.
-- - Lexer.Strings is Lex::parseString, with Plain on closed texts and Unclosed on others; Lexer.Chars
--   is Lex::getAChar and Lex::parseCharConstant.
-- - Lexer.Scan: `get_next_token`, where `kind_of` and `of_kind` are its switch; Blanks, Dispatch,
--   Signs, Lexemes, Breaks and Yields say what it returns, Output is LexOutput::output
--   (lib/lex/output.cc), Print what it prints for a token, RoundTrip and Ends are about whole inputs.
-- - Lexer.Numbers: `try_parse_hex_number` and `try_parse_oct_number`, each a loop of rounds (the
--   switch, then the count of the bytes); Decimal is `try_parse_dec_number`, which hands a number
--   with a point or an exponent to `try_parse_float_number` of Floats; Positional, Digits and
--   Value say what digits mean. `strtod` is not modelled: its value is the text that it gets.
-- - Symbols (lib/tools/tools.cc, includes/identifier.h): `str_hash` and identifiers; Symbols.Table
--   (includes/table.h) is `Table` with `put` for PutIntoTable, `find` and the growth `check_size`;
--   Home is where `put` puts, Lookup and Insert what `find` answers. Symbols.Scopes
--   (lib/env/environment.cc, includes/environment.h) is `Env` with its nesting.
-- - Outcome: what a step behind the scanner ends with, a result or the fault that it meets.
-- - Types (lib/semantic/type.cc, includes/type.h): `CType` is Type with its constructor
--   `make_type` and `binary_op`; Types.Check is `check` with checkType, checkFunction and
--   checkPara, whose static exception is an argument; Tally, Accepts and Sticks say what it gives.
-- - Ir (lib/inter/semantic.cc, includes/semantic.h): a `Store` is the heap of instructions, the
--   lists to patch and the static members; a command is a function on it. Chain is the predicate
--   of linked code, Append and Insert add to it, Walk follows it, Patch is about the lists, Names
--   and Limits about labels and temporary variables.
-- - Trees (lib/inter/tree.cc, includes/tree.h): the nodes; Trees.Build has the functions that make
--   them (Trees.Conditions those of || and &&), where `arith_tree` and `compare_tree` are what ten
--   and six functions have in common, and GD_OUTPUT is a parameter; Result, Branch and
--   Emit say what they make and emit, Labels, Joined, Runs and Logic how the conditions share labels.
-- - Parser (includes/parser.h, lib/parser/parser.cc, lib/parser/decl.cc, includes/lex/tools.h):
--   `Window` has the tokens that the parser looks at, with `next` and `push_back`; the scanner is
--   the list of tokens that it is still to return. `type_qualifier_list` and `pointer` build types.
--   Stream reads the window as a list of tokens, Pointers says what the types are.
--   Parser.Declarators has specifiers, declarators and lists of parameters, with `need`; a member
--   of type Token points to texts and numbers that were freed with the token assigned to it, so that
--   to copy or read them is a fault, which Freed is about. Parser.Levels
--   (lib/parser/expr.cc) has the levels of operators and the trees of assignments, Parser.Keywords
--   the classes of keywords.
-- - Tests: runs, and the theorems at concrete inputs.
--
-- The loops of the scanner end with their input, so they take fuel; a word of n bytes needs n + 1
-- rounds, and a token one round more than the blanks, newlines and skipped lines in front of it. The
-- scanner stands on memory sources.
--
-- The loops on the code follow links, so they take fuel; linked code of n instructions needs n.
--
-- An `int` is 32 bits and wraps around; the line and the column of a source are exact while the
-- bytes read and left are fewer than 2 ^ 31 - 1, which the theorems on sources suppose (`Views`).
--
-- An access past an array or through a null pointer is a result of its own, `Checked` for tables
-- and `Outcome` behind them; so is the read of a member that was never set.
--
-- Not modelled: the printing of messages, types and code, the file names in positions, the
-- release of memory, the driver's command line; what the C library makes of a floating constant and
-- the fmt library of a format (arguments of the model), the trees of identifiers, and of the parser
-- all but specifiers, declarators, the levels of operators and assignments.
pub mod Base
pub mod Input
pub mod Token
pub mod Lexer
pub mod Symbols
pub mod Outcome
pub mod Types
pub mod Ir
pub mod Trees
pub mod Parser
pub mod Tests
