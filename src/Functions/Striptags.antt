-- ===== src/Functions/Striptags.antt =====
-- templatefunctions/striptags_func.go. The HTML parser and `html.EscapeString` belong to
-- golang.org/x/net/html and are parameters.
pub mod Defs
pub mod Grammar
pub mod Sound
