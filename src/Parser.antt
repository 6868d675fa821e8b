-- ===== src/Parser.antt =====
-- parser: the recursive descent parser. `State` has its state and its error channel, `Look` the
-- operations on the lookahead token, `Names` the name productions, `Misc` the statements of
-- parser/parse_misc.go, `Script` the script loop and `Entry` the entry points. `Safe` has the
-- invariant and the promise of a parsing function, `Post` postconditions; the other modules prove
-- what they are named for.
pub mod State
pub mod Look
pub mod Combine
pub mod Stays
pub mod Repeats
pub mod Rec
pub mod Term
pub mod Window
pub mod Primary
pub mod Operators
pub mod From
pub mod Select
pub mod Upsert
pub mod Dml
pub mod References
pub mod Default
pub mod Constraint
pub mod TableConstraint
pub mod Table
pub mod Drop
pub mod VirtualTable
pub mod Alter
pub mod Trigger
pub mod Ddl
pub mod Rules
pub mod Reads
pub mod TermSafe
pub mod WindowSafe
pub mod PrimarySafe
pub mod OperatorsSafe
pub mod FromSafe
pub mod SelectSafe
pub mod DmlSafe
pub mod ConstraintSafe
pub mod TableSafe
pub mod DdlSafe
pub mod Knot
pub mod KnotSafe
pub mod Precedence
pub mod Progress
pub mod Compound
pub mod Fold
pub mod Joins
pub mod Safe
pub mod Looks
pub mod Names
pub mod Deferred
pub mod NamesSafe
pub mod Misc
pub mod MiscSafe
pub mod Script
pub mod Post
pub mod Statement
pub mod Spans
pub mod Loop
pub mod Entry
pub mod Start
pub mod Answer
pub mod Quotes
pub mod Quoted
pub mod Position
pub mod Number
pub mod Separators
pub mod Bind
pub mod Render
pub mod Report
pub mod Binds
pub mod BindRange
pub mod BindSafe
pub mod Register
mod Tests
mod Grouped
mod Closed
mod Grouping
mod Climbing
mod Tree
mod SqlTests
mod ErrorTests
mod NumberTests
