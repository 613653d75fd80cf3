-- ===== src/Pug.antt =====
-- Pug documents: the tokens read from a file, the nodes built from them, and their rendering into
-- a Go template.
pub mod Token
pub mod Node
pub mod Build
pub mod State
pub mod Maps
pub mod Pieces
pub mod Methods
pub mod Render
pub mod Compile
pub mod Invariant
pub mod Escape
