-- ===== src/Template.antt =====
-- The execution of templates (pugjs/tpl_exec.go).
pub mod Slices
pub mod Views
pub mod Writes
pub mod Scoping
pub mod Syntax
pub mod State
pub mod Variables
pub mod Reflection
pub mod Calls
pub mod Eval
pub mod Control
pub mod Walk
pub mod Execute
pub mod Effects
pub mod Fitting
pub mod Cells
pub mod Aliases
pub mod Places
pub mod Valid
pub mod Blocks
pub mod AllNames
pub mod Names
pub mod Frame
pub mod Output
pub mod Visible
pub mod Consistent
pub mod Extends
pub mod Fuel
pub mod Logic
pub mod Escaping
pub mod Binding
pub mod Depth
pub mod Ends
