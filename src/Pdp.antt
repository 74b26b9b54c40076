-- ===== src/Pdp.antt =====
-- src/actenon_permit/pdp.py: the policy decision point. `Rules` has the matching of scopes and
-- of approval rules, `Reasons` the texts and the classification of a refused reservation, `Steps` what a
-- decision is made of, `Decide` the decision; the other children are about it.
pub mod Rules
pub mod Reasons
pub mod Steps
pub mod Decide
pub mod Allowing
pub mod Transactions
pub mod Denying
pub mod Refusals
pub mod Scopes
