-- ===== src/Tests.antt =====
-- The theorems at concrete inputs.
mod Evals
mod Observers
mod Iterators
mod Registrations
mod Values
mod Properties
mod Installs
mod Guards
mod Keys
mod Calls
mod Zvals
mod Counts
mod Types
mod Names
pub mod Tables
mod Arrays
mod Stubs
mod Builders
