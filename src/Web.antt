-- ===== src/Web.antt =====
-- internal/presentation/webhandlers: the handlers of HTTP requests.
pub mod Params
pub mod Request
pub mod Answers
pub mod Cache
pub mod Get
pub mod Health
pub mod Docs
