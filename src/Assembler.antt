-- ===== src/Assembler.antt =====
-- pkg/assembler/mgr.go, with what it calls of pkg/utils/convert.go, and the programs around it.
pub mod Convert
pub mod State
pub mod Add
pub mod Polls
pub mod Start
pub mod Ready
pub mod BuiltIn
pub mod Main
pub mod Serve
