-- ===== src/IniReader.antt =====
-- The reader of the INI configuration file: src/cIniReader.cpp and src/cIniReader.hpp.
pub mod Line
pub mod Reader
pub mod Values
pub mod Syntax
pub mod Words
pub mod Loop
pub mod Assignments
pub mod Headers
pub mod Meaning
pub mod Files
pub mod Lookup
pub mod Printer
pub mod PrintedLines
pub mod RoundTrip
pub mod Numbers
pub mod Extraction
pub mod Integers
mod Examples
