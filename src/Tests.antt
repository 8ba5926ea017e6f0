-- ===== src/Tests.antt =====
-- Runs of the definitions on concrete inputs.
pub mod Pool
pub mod Threads
pub mod Conns
pub mod Requests
pub mod Reads
pub mod Lists
pub mod Texts
pub mod Keys
pub mod Commands
pub mod Copies
pub mod Accounts
pub mod Devices
