-- ===== src/Analyse.antt =====
-- The checks of pug and JavaScript sources (puganalyse/analyser.go).
pub mod Defs
pub mod Atomic
pub mod Imports
pub mod Escaping
