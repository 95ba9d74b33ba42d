-- ===== src/Domain.antt =====
-- internal/domain: object values, aggregates and events.
pub mod Expiration
pub mod Disposable
pub mod Clicks
pub mod Params
pub mod QuotaValue
pub mod Record
pub mod Quota
pub mod ApiKey
pub mod Event
