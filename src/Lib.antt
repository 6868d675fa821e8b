-- ===== src/Lib.antt =====
-- A verification library of meyer, a parser for the SQLite SQL dialect.
--
-- The program: package token names the token kinds and looks keywords up (token/token.go,
-- token/keywords.go); package lexer cuts the input into tokens and trivia (lexer/lexer.go).
--
-- Base holds what the modules share. Token and Keywords model package token, `Kind` with its iota
-- values, `lookup` for Lookup, and the token classes under their source names in snake_case
-- (`is_name` for IsName). Keywords.Table is the table that init builds. Lexer models package
-- lexer: `scan` for scan with one function for each longer case, `lex_from` for the loop of lex,
-- `resolve` for resolveWindowKeywords, `lex` and `lex_file` for Lex and LexFile.
--
-- Ast holds the node types of package ast: spans and names, Ast.Expr the expressions and
-- queries (ast/expr.go, ast/select.go), which are one mutual block, Ast.Dml, Ast.Ddl and
-- Ast.Misc the statements, Ast.Stmts the interface Stmt with SetSpan. Parser models package
-- parser: Parser.State the type parser (`State`) and the error channel, where a panic that
-- carries a bail is the outcome `failed`; Parser.Look the lookahead operations
-- (parser/parser.go); Parser.Names the name productions; Parser.Combine the shapes of control
-- flow that the productions share, such as a loop over items that commas separate. Parser.Term,
-- Parser.Primary and Parser.Operators are parser/parse_expr.go, with Parser.Number and
-- Parser.Bind for dequoteNumber and bindParam, where a Go int is the number of its 64 bits;
-- Parser.Window, Parser.From and Parser.Select are parser/parse_select.go; Parser.Upsert and
-- Parser.Dml are parser/parse_dml.go; Parser.References, Parser.Default, Parser.Constraint,
-- Parser.TableConstraint, Parser.Table, Parser.Drop, Parser.VirtualTable, Parser.Alter and
-- Parser.Ddl are parser/parse_ddl.go, and Parser.Trigger is parser/parse_trigger.go;
-- Parser.Misc is parser/parse_misc.go. The productions take the functions through which they
-- recurse from the record Parser.Rec, and Parser.Knot ties the knot. Parser.Script is parseCmd,
-- parseExplainable and parseScript; Parser.Entry ParseString, ParseFile, ParseStatement and
-- ParseExpr. The parser calls the lexer once and reads its token slice by index.
-- Parser.Position is LineCol and Parser.Render Error.Error. A function of the model has the
-- name of the source's in snake_case; where a function of the source has long cases, each is a
-- function of the model, which says so. Parser.Safe states the invariant of the parser's state
-- and what every parsing function promises, and Parser.Post adds postconditions. Parser.Stays
-- is the same promise from the states with a bounded number of tokens left, and that a function
-- consumes a token; the modules whose names end in Safe prove these for each production.
-- Parser.Grouped says what the precedences ask of a tree, which Parser.Climbing and Parser.Tree
-- prove of the climbing loop.
--
-- Corpus models internal/testfile/testfile.go as far as it derives what a corpus case requires of
-- the parser; it reads no part of the parser but the wording of its messages.
--
-- A Go string is the list of its bytes, each a number. `scan` reads the input from the token's
-- first byte on, in place of the pair of the input and an offset, since it reads nothing before
-- that byte. No loop of the lexer needs fuel: each is a recursion on the bytes behind it, and
-- the loop of lex counts down the bytes of the token that it steps over. The loops of the
-- parser and the recursion of its productions have the number of tokens left for fuel: a round
-- of a loop consumes a token, and so does a production before it recurs, hence the fuel is
-- enough. A map is an association list. An error offset of -1 is `none`. strings.ToUpper works
-- on the ASCII letters where its text is a keyword; joinTypeOf also gives it names, and
-- `to_upper` has the two other characters whose upper case is an ASCII letter. An optional
-- field of a node, or a list of nodes, is a data type of its own where it stands inside the
-- mutual block of the tree.
--
-- Not modelled: Kind.String and the name tables behind it, which serve messages of tests and
-- tools; Children and Walk of package ast; the reading of an io.Reader; the renderer, the dump,
-- the file format of the corpus and the commands.
pub mod Base
pub mod Token
pub mod Keywords
pub mod Lexer
pub mod Ast
pub mod Parser
pub mod Corpus
