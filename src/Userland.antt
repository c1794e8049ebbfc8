-- ===== src/Userland.antt =====
-- The library of the programs, Userland/.
pub mod Numbers
pub mod Hex
pub mod Tokens
pub mod Copy
pub mod Format
pub mod Shell
