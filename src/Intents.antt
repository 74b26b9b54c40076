-- ===== src/Intents.antt =====
-- src/actenon_permit/intent.py: intents, from a declared action to its end. `Lifecycle` has the table of
-- transitions, `Metadata` the limits on what a caller may note, `Manager` the store and the operations.
pub mod Lifecycle
pub mod Reachable
pub mod Metadata
pub mod Manager
pub mod Advancing
pub mod Completing
