-- ===== src/Tests.antt =====
-- Runs of the model at small inputs, and the theorems at concrete states that meet their hypotheses.
mod Data
mod Buffers
mod Pipes
mod Scheduling
mod Calls
mod Creation
mod Semaphores
mod Memory
mod Buddy
mod Video
mod Userland
mod Format
mod Keyboard
