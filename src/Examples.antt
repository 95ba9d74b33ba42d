-- ===== src/Examples.antt =====
-- The theorems at concrete inputs, over a store in memory, and tests of the definitions.
mod World
mod Inputs
mod Memory
mod Domain
mod Store
mod Succeeds
mod Requests
mod Quotas
mod Events
mod Handlers
mod ApiKeys
mod Commands
mod Persistent
mod Buffers
mod Lent
mod Columns
mod Concurrent
mod Factory
mod Server
mod Posted
