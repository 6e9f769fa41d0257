-- ===== src/Tests.antt =====
-- The theorems of the library at concrete inputs.
mod Texts
mod Clock
mod Machine
mod Scheduling
mod Memory
mod Mapping
mod Allocation
mod Programs
mod Rounds
mod Threads
