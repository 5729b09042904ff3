-- ===== src/Shell.antt =====
-- src/shell/command_registry.cpp and its header: the tokenizer, wildcards, the dispatch of command
-- lines, and the operation log with its replay. A `std::string` is the list of its bytes; command
-- lines have no NUL.
pub mod Tokens
pub mod Glob
pub mod Registry
pub mod Quoting
pub mod Patterns
pub mod Matching
pub mod LogFile
pub mod Replays
pub mod LogNames
pub mod KeptLog
pub mod Wildcards
mod Tests
