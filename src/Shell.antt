-- ===== src/Shell.antt =====
-- The command shells of hw4 and of hw6/part2.
pub mod Argv
pub mod Words
pub mod Parse
pub mod Background
pub mod Pipe
pub mod Redirect
pub mod Builtin
pub mod Session
pub mod Child
pub mod Second
pub mod Catalog
pub mod Tests
