-- ===== src/Broker.antt =====
-- src/actenon_permit/broker.py and execution_modes.py: the broker, which calls a provider with a credential
-- that nobody else sees, and the coordinator of a brokered execution. `Redaction` keeps the secret out of texts and
-- evidence, `Execute` is the call and `Coordinate` what is made of its end.
pub mod Redaction
pub mod Clean
pub mod Execute
pub mod Coordinate
pub mod Honest
pub mod Resource
