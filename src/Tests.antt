-- ===== src/Tests.antt =====
-- The theorems at concrete inputs, over simple implementations of the interfaces.
mod Items
mod Blocks
mod Subscription
mod Network
mod Start
mod Crawl
mod Wires
mod Joins
mod Answers
mod Together
mod Tables
mod Sync
mod Dynamo
mod Api
mod Requests
mod Versions
