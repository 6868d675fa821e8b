-- ===== src/Lexer.antt =====
-- lexer/lexer.go: the tokenizer. `Chars` has the character classes, `Scan` the switch of `scan`
-- with its shorter cases, `Number` and `Literal` its longer ones, and `Lex` the loop over the input
-- with the pass over the window keywords. The other modules prove what they are named for.
pub mod Chars
pub mod Number
pub mod Literal
pub mod Scan
pub mod Lex
pub mod Bounds
pub mod Fits
pub mod Nul
pub mod NulScan
pub mod Window
pub mod Tiles
pub mod Stop
pub mod Consumed
pub mod Cover
pub mod Resolved
pub mod Run
mod Tests
