-- ===== src/Runtime.antt =====
-- The functions of pugjs/runtime.go.
pub mod Value
pub mod Arithmetic
pub mod Bounds
pub mod Compare
pub mod Order
pub mod Attributes
pub mod AttributeValues
pub mod AttributeSafety
pub mod Builtins
pub mod Range
pub mod MapLiteral
pub mod Truth
pub mod MapParams
