-- ===== src/Infrastructure.antt =====
-- internal/infrastructure: the repositories over Redis, and the handler that sends to RabbitMQ.
pub mod Redis
pub mod Gzip
pub mod Pool
pub mod KeyGen
pub mod RecordRepo
pub mod QuotaRepo
pub mod ApiKeyRepo
pub mod EventHandler
