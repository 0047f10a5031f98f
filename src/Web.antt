-- ===== src/Web.antt =====
-- components/ui_http_server/ui_http_server.c: the web interface.
pub mod Url
pub mod Handlers
