-- ===== src/SqlFileParser.antt =====
-- The SQL input file parser: src/cSqlFileParser.cpp and src/cSqlFileParser.hpp.
-- A pair `(text, pos)` of the code is the rest of the text from `pos` on.
pub mod Text
pub mod Trim
pub mod Scanner
pub mod Cases
pub mod Bounds
pub mod Invariant
pub mod Size
pub mod Dialects
pub mod Grammar
pub mod Decides
pub mod Pieces
pub mod Comments
pub mod Dollars
pub mod Lexing
pub mod Lookahead
pub mod Lines
pub mod Scripts
mod Examples
