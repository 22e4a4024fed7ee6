-- ===== src/Tool.antt =====
-- The wrappers of Fabric's binaries: nodejs/binManager. Each makes a command line, runs it and, around
-- the run, makes and removes temporary files and settings of the environment.
pub mod Disk
pub mod Command
pub mod Translator
pub mod Peer
pub mod Package
mod Tests
