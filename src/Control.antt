-- ===== src/Control.antt =====
-- The control loop over its stores: dashboard/control/reconciler.py and the requests of
-- dashboard/control/service.py, as actions on one world.
pub mod World
pub mod Stores
pub mod Outside
pub mod Moves
pub mod Steps
pub mod Ending
pub mod Observe
pub mod Turns
pub mod Request
pub mod Locks
pub mod Step
pub mod Pass
pub mod Evolves
pub mod Rules
pub mod Leaves
pub mod Transitions
pub mod Fences
pub mod Lawful
pub mod Keeping
pub mod Runs
pub mod Answers
pub mod Lost
pub mod Alone
