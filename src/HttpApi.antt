-- ===== src/HttpApi.antt =====
-- internal/httpapi: the endpoints of the service, and the cursors that their pages carry.
pub mod Wire
pub mod Cursor
pub mod Handlers
pub mod Routes
pub mod Pages
pub mod Walk
pub mod Stored
