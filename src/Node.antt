-- ===== src/Node.antt =====
-- The crate under node/: what it makes of a command line, a configuration and a genesis.
pub mod ChainSpec
pub mod Cli
pub mod About
pub mod Rpc
pub mod Calls
pub mod Running
pub mod Service
pub mod Command
pub mod Tests
