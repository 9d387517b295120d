-- ===== src/Scheduler.antt =====
-- src/scheduler.py: the continuous batcher, which admits, decodes, routes and evicts.
pub mod State
pub mod Admit
pub mod Route
pub mod Loop
pub mod Rule
pub mod Steps
pub mod Places
pub mod Conserve
pub mod History
pub mod Counters
pub mod Identifiers
pub mod Flags
pub mod Each
pub mod Local
pub mod Routed
pub mod Requests
pub mod Endings
pub mod Gating
pub mod Streams
pub mod Parity
pub mod Admission
pub mod Preemptions
pub mod Work
pub mod Pool
pub mod Origins
