-- ===== src/Pug/Escape.antt =====
-- The escape of template delimiters in text nodes (the Text case of buildNode).
pub mod Items
pub mod Passes
pub mod RoundTrip
