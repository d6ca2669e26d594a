-- ===== src/Parser.antt =====
-- gdata/gdata-parser.c: the helpers with which every class reads its XML or JSON and writes XML.
pub mod Errors
pub mod Element
pub mod Numbers
pub mod Escape
pub mod Trim
