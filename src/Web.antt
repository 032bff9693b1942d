-- ===== src/Web.antt =====
-- crates/seck-web: the report as a page on the loopback interface, behind a single-use token.
-- The routing is axum's; the handler is modelled with the token store it shares and with the headers
-- that src/headers.rs puts on its answers.
pub mod Page
pub mod Markup
pub mod Token
pub mod Headers
pub mod Bind
mod Runs
