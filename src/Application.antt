-- ===== src/Application.antt =====
-- internal/application: the services, over the interfaces of the repositories.
pub mod Repository
pub mod Get
pub mod ApiKeys
pub mod Validator
pub mod Cache
pub mod RoundTrip
