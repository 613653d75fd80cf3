-- ===== src/Js/Fuel.antt =====
-- Every bound of the model of the translation is enough.
pub mod Loop
pub mod Literals
pub mod Expressions
pub mod Depth
