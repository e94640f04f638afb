-- ===== src/KdocParser.antt =====
-- The state machine of docs/kerneldoc-src/tools/lib/python/kdoc/kdoc_parser.py.
pub mod Strings
pub mod Patterns
pub mod Entry
pub mod Doc
pub mod Names
pub mod Sections
pub mod Special
pub mod Munge
pub mod Prototype
pub mod Export
pub mod Reader
pub mod Enum
