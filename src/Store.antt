-- ===== src/Store.antt =====
-- src/actenon_permit/state.py and delegated_budget.py: the authority store. `Tables` is the
-- database, `Lineage` the chain of budget owners, `Reserve` and `Settle` the transactions.
pub mod Transaction
pub mod Tables
pub mod Lineage
pub mod Reserve
pub mod Settle
pub mod Accounting
pub mod Charging
pub mod Authority
pub mod Replay
pub mod Admission
pub mod Queries
pub mod Books
pub mod Delegation
