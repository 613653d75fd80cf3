-- ===== src/Js.antt =====
-- The translation of JavaScript to Go template actions (pugjs/transform_js_.go).
pub mod Ast
pub mod Escape
pub mod Interpolate
pub mod Pieces
pub mod Render
pub mod Fuel
pub mod Filter
