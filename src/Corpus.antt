-- ===== src/Corpus.antt =====
-- internal/testfile/testfile.go: the corpus cases and what is required of the parser under test.
-- `Expect` derives the requirement, `Messages` relates the syntax-error family to the parser's
-- messages, and `Unreached` says which offsets are exempt.
pub mod Expect
pub mod Messages
pub mod Unreached
mod Tests
