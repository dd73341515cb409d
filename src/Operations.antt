-- ===== src/Operations.antt =====
-- dashboard/control/operations.py: the table of operations and what each method writes.
--
-- Identifiers, keys and moments are numbers, since the code only compares them. A method takes the
-- moment at which it runs. The `result` column holds the progress of an open operation and the
-- outcome of a closed one; an empty idempotency key is `none`.
pub mod Table
pub mod Open
pub mod Methods
pub mod Reports
pub mod Actions
pub mod Rows
pub mod Outcomes
pub mod Keys
pub mod Deadlines
pub mod Audit
