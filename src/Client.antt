-- ===== src/Client.antt =====
-- internal/client: requests to the API.
pub mod Path
pub mod Request
