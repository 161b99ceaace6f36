-- ===== src/Tests.antt =====
-- Concrete inputs for the theorems, and evaluations.
mod Quiet
mod Store
mod Safety
mod Lifetimes
mod Backends
mod Workers
mod Loops
mod Threads
mod Signals
mod Running
mod Polling
mod Returning
mod Clients
mod Restarts
mod Watches
mod Resources
mod Endings
