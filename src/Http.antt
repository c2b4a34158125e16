-- ===== src/Http.antt =====
-- The HTTP server on the reactor library, directory http/.
pub mod HttpRequest
pub mod HttpContext
pub mod HttpResponse
pub mod HttpServer
pub mod SqlConnectionPool
pub mod Serving
