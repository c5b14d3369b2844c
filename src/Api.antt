-- ===== src/Api.antt =====
-- internal/api: the HTTP handlers and what they share.
pub mod Errors
pub mod Page
pub mod Translate
pub mod Handlers
pub mod Schemas
pub mod Server
pub mod RateLimit
pub mod Middleware
pub mod Endpoints
pub mod Router
pub mod Playground
pub mod Health
