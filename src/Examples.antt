-- ===== src/Examples.antt =====
-- The theorems at concrete inputs, and tests of the definitions.
mod Queues
mod Channels
mod Voids
mod Schedulers
mod Strands
mod Timers
mod Contexts
mod Targets
mod Works
mod Joins
mod Promises
mod Coinvokes
mod Pipelines
mod Actors
mod Coroutines
mod Yields
mod Chains
mod Books
mod Continuations
