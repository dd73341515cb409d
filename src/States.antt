-- ===== src/States.antt =====
-- The lifecycle of dashboard/control/states.py: the table of edges, the verbs and where each may
-- be asked for.
--
-- A state name is a value of `State`; `unknown` stands for a text that is no state of the
-- machine (the database default of a row never observed). `START`, Python's None, is `none` of
-- `Option State`. A step or verb is a value of `Verb`: the eighteen verbs, the words that the
-- reconciler adds, and `other` for any further text. A set is the list of its values.
pub mod Names
pub mod Edges
pub mod Asking
pub mod Machine
pub mod Verbs
pub mod Values
