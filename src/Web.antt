-- ===== src/Web.antt =====
-- Package internal/web: the handlers of the tailnet routes, the routes, the middlewares and `Start`.
pub mod Handlers
pub mod Routes
pub mod Middleware
pub mod Server
