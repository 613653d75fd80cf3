-- ===== src/Functions.antt =====
-- The functions that templates may call (templatefunctions/).
pub mod Striptags
pub mod Urls
pub mod Small
pub mod Lists
pub mod Extremes
