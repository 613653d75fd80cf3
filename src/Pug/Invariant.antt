-- ===== src/Pug/Invariant.antt =====
-- Invariants of the render state over all Render methods.
pub mod Results
pub mod Effects
pub mod Rule
pub mod Mixins
pub mod Ends
pub mod Parts
pub mod Complete
