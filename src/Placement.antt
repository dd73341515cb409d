-- ===== src/Placement.antt =====
-- dashboard/control/placement.py and the part of hardware.py that it calls: the worker that a new
-- runner goes on, or why none can take it.
--
-- A worker is what `declared` returns of it for each key, with the values of the types that the
-- code expects; a number that an agent declares may be negative. Hosts, architectures, templates
-- and other runtimes are numbers, ordered as their texts. CPU counts asked for are in thousandths
-- of a core; `float_of` stands for Python's float() of a text, none where it raises.
pub mod Worker
pub mod Suits
pub mod Demand
pub mod Choose
pub mod Room
pub mod Choice
