-- ===== src/CLex.antt =====
-- The C tokenizer and macro matcher of docs/kerneldoc-src/tools/lib/python/kdoc/c_lex.py.
pub mod Token
pub mod Scanner
pub mod Tokenizer
pub mod Render
pub mod Raised
pub mod Refs
pub mod Args
pub mod Match
