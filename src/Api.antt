-- ===== src/Api.antt =====
-- internal/api: the requests that change the state of the runtime.
pub mod Send
pub mod Events
