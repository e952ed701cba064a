-- ===== src/Tools.antt =====
-- The tools of src/tools that are modelled.
pub mod File
pub mod Shell
pub mod Git
pub mod Http
pub mod Web
pub mod Default
mod Tests
