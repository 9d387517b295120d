-- ===== src/Tests.antt =====
-- Runs of the development on small inputs, with a toy model of one layer in the place of the
-- language model.
pub mod Toy
mod Queues
mod Caches
mod Setup
mod Runs
mod Pools
mod Training
mod Reports
mod Gates
mod Admissions
mod Rounds
mod Answers
mod Evaluations
mod Checks
