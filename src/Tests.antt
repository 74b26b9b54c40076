-- ===== src/Tests.antt =====
-- Runs on a small store, and the theorems applied to them: a root grant of 100 (in whole units of
-- the currency) and a child of 50, from which 5 is reserved, claimed and settled.
mod Data
mod Money
mod Authority
mod Actions
mod Dispatch
mod Log
mod Decisions
mod Edge
mod Brokering
mod Lives
