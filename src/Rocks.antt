-- ===== src/Rocks.antt =====
-- crates/stanchion-abi/src/rocks.rs: LuaRocks versions, requirements and the arguments handed to
-- the `luarocks` command.
pub mod Version
pub mod Requirement
pub mod Command
