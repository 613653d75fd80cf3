-- ===== src/Objects.antt =====
-- The runtime objects of pugjs/types.go.
pub mod Map
pub mod Keys
pub mod Merge
pub mod Array
pub mod Sharing
pub mod Strings
pub mod Splitting
pub mod Cutting
pub mod Members
pub mod Copies
