-- ===== src/Rest.antt =====
-- The REST handler: src/core/rest_handler.cpp. parseUrl is in Url.
pub mod Defs
pub mod Exchange
pub mod Context
