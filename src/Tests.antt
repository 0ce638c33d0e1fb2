-- ===== src/Tests.antt =====
-- The theorems at concrete inputs.
mod Sessions
mod RateLimits
mod RedisLimits
mod Pools
mod Guards
mod Access
mod Stores
mod Calls
mod Tokens
mod Settings
mod Usage
mod Columns
mod Reads
mod Managers
mod Stacks
mod Catalogues
mod Reports
mod Graphs
mod Instances
