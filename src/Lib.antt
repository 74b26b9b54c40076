-- ===== src/Lib.antt =====
-- Actenon-Permit: decisions on the actions of agents, the store they rest on, and their execution.
--
-- The program issues signed grants to agents. The decision point checks an action against its grant
-- and charges it to the budgets of the grant and of all grants it was derived from; the broker then
-- calls the provider with a credential that the agent never sees, and settles the cost; an intent
-- is the record of such an action from its creation to its end. The parts modelled here:
--   src/actenon_permit/budget.py: amounts as integers of 10^-9 (Budget, Budget/...). `units` reads a
--     value, `from_units` writes one; the names are the source's. A `Decimal` is its `as_tuple()`.
--   src/actenon_permit/model.py: the grant, `sign`, `verify`, `permits_effect` and `attenuate`
--     (Grant, Grant/...). The HMAC is a parameter, the record `Signing`.
--   src/actenon_permit/state.py and delegated_budget.py: the store (Store, Store/...). Store/Tables
--     has the tables as a record `Db` and the queries on them; Store/Lineage is `_budget_lineage`;
--     Store/Reserve is `reserve`; Store/Settle is `commit`, `release` and `set_status`, with
--     `_settle_budget_owners`, `_settled_balance` and `_reservation`; Store/Admission is `put_grant`,
--     which compares two payloads field by field. Store/Accounting says what is
--     charged to a grant and, in its children, what each transaction does to the books; Charging,
--     Replay, Authority, Delegation and Books state it of the operations.
--   src/actenon_permit/effects.py: the effect ledger (Effects, Effects/...): `reserve_effect` and
--     `claim_effect` in Effects, `settle_effect` in Effects/Settle, the queries
--     in Effects/History. What `actenon_protocol` computes
--     is the record `Protocol`. Effects reserve and settle budget through the store's transactions.
--   src/actenon_permit/ledger.py: the hash-chained log (Ledger, Ledger/Chain). The hashes over an
--     entry, with their normalisers, are the record `Hashing`.
--   src/actenon_permit/pdp.py: the decision point (Pdp, Pdp/...). Rules has the matching of scopes and
--     approval rules, Reasons the texts and codes, Steps the entry and the reservation, Decide `decide`
--     and `commit` (as `reconcile`), Scopes the matching of scopes. Glob is `fnmatch` of Python's library, which scopes are matched with.
--   src/actenon_permit/broker.py and execution_modes.py (Broker, Broker/...): Redaction, Execute with
--     `execute_via_adapter`, Coordinate with the brokered coordinator, Resource with `submit`.
--   src/actenon_permit/intent.py (Intents, Intents/...): the table of transitions, the metadata limits,
--     and the manager on the store that holds its objects in memory.
--   src/actenon_permit/revocation.py (Revocation, Revocation/Ancestry) and sdk/retry.py (Retry);
--     `estimate_cost` of model.py is in Cost.
--   Runs has sequences of transactions: reservations, commits, releases, changes of status and the
--     three of the effect ledger; `put_grant`, which adds a balance, is no step of one. Tests has a small
--     store and runs on it.
--
-- A transaction is a function of the tables: it returns its result with the tables after COMMIT, or
-- with those of before after ROLLBACK. Within a reservation, of a budget or an effect, an exception
-- comes with the tables as they were when it was raised (Store/Transaction); in the other transactions
-- it has none. The write lock serialises transactions, so that concurrent
-- callers are a sequence of steps. An exception is a constructor of `Error` (Result). The clock is
-- read once in a transaction, in microseconds; a fresh uuid is an argument. Identifiers, hashes and
-- descriptors are only compared and are numbers, with 0 for an empty identifier.
--
-- Bounds and fuel: a lineage is walked in 64 rounds, which is the bound of the source; the digits of
-- n are computed with fuel n + 1, and a number has no more digits than that. Python's limit of 4300
-- digits on the reading and writing of an `int` is kept in `units`. The checker of
-- revocation walks in `max_depth` rounds and `with_retry` calls in `max_attempts`, both as the source.
--
-- Parameters: an adapter is a step on the state of what lies outside, of which no more is assumed than a
-- theorem says; a credential provider, the verification of a receipt and the texts of exceptions are
-- functions; what a ledger entry makes of its texts is the record `Writing`. Delays of `with_retry` are
-- whole numbers of a unit, so that the rounding of floats is left out. The end of the coordinator, and of
-- a resource, is a function of its world for the manager of intents. `str.lower` is that of ASCII and of
-- the two other code points whose lower case has a letter of ASCII.
--
-- Not modelled: the REAL columns, which mirror the exact ones and are never read; the creation and
-- migration of the schema; `updated_at` of grants; JSON and the legacy signatures; the list of all grants
-- and the search for a revoked ancestor; the minting of proofs by `decide_and_mint_pccb`, which calls the
-- kernel; `Broker.execute` and `extract_cost` of the legacy path; the SQLite store of intents, their
-- creation and their HTTP routes. The gateway, the adapters themselves, the boundary kit, the HTTP clients
-- and the command lines are outside this development.
pub mod Base
pub mod Texts
pub mod Status
pub mod Result
pub mod Budget
pub mod Grant
pub mod Store
pub mod Effects
pub mod Runs
pub mod Revocation
pub mod Pdp
pub mod Broker
pub mod Intents
pub mod Cost
pub mod Retry
pub mod Glob
pub mod Ledger
mod Tests
