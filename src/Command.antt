-- ===== src/Command.antt =====
-- include/CommandController.h and src/CommandController.cpp: the serial receive ring, the parser of
-- command lines, and the executor of instant and of long-running commands. The last part of the file,
-- its utility methods, is cut off: `skipWhitespace`, `findTokenEnd`, `strcasecmpN` and `charToIndex`
-- are the parameter `Lexer`.
pub mod Actions
pub mod Parse
pub mod LexerLaws
pub mod ParseEnds
pub mod WellFormed
pub mod Names
pub mod Lexing
pub mod RoundTrip
pub mod Rx
pub mod Ring
pub mod Lines
pub mod TakeLine
pub mod Extract
pub mod Machine
pub mod Steps
pub mod Execute
pub mod Expected
pub mod Changes
pub mod Instant
pub mod Answers
pub mod AckLine
pub mod Tick
pub mod Ticks
pub mod LastWords
pub mod Endings
pub mod Portions
pub mod Alone
pub mod Progress
pub mod Recalibration
pub mod Completed
