-- ===== src/JobEvents.antt =====
-- dashboard/control/job_events.py: the events of jobs, kept once each, and what they change of the
-- runner's row.
--
-- A text is the list of its character codes. Moments are microseconds, the unit of the normalised
-- timestamps. An event is one that `validate` returned; the identifiers, which the code only
-- compares, are numbers.
pub mod Event
pub mod Order
pub mod Tables
pub mod Apply
pub mod Fences
pub mod Once
pub mod Pages
