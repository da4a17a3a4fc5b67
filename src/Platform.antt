-- ===== src/Platform.antt =====
-- internal/platform: what a verified session shares between requests.
pub mod RateLimit
