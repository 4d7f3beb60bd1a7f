-- ===== src/Tsql.antt =====
-- Package tsql: the lexer, the quoting of names and literals, and comments.
pub mod Scan
pub mod Quote
pub mod Comment
