-- ===== src/Application/Cache.antt =====
-- internal/application/service/cache.go: validation, keys, quotas and `Serve`.
pub mod Validate
pub mod Serve
