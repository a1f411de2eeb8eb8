-- ===== src/EntryParser.antt =====
-- src/malc/entry_parser.c: the texts of an entry, from its format string and its arguments.
pub mod Types
pub mod FloatFormat
pub mod Objects
pub mod Args
pub mod Text
pub mod Entry
