-- ===== src/Functions/Urls.antt =====
-- `url` and `tryUrl` (templatefunctions/url_func.go and try_url_func.go).
pub mod Defs
pub mod Query
