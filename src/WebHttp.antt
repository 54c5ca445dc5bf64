-- ===== src/WebHttp.antt =====
-- crates/locho-web/src/http.rs: one HTTP/1.1 request and its response on one stream. What comes
-- from the crates `http` and `httparse` is a parameter of `Request`, `Framed` and `Head`.
pub mod Reader
pub mod Body
pub mod Request
pub mod Framed
pub mod Head
