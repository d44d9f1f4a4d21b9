-- ===== src/Container.antt =====
-- The commands on a container: src/core/container.
pub mod World
pub mod Stop
pub mod Remove
pub mod Report
pub mod Lifecycle
pub mod CleanUp
pub mod Removal
pub mod Task
pub mod Run
pub mod Layers
pub mod Enter
pub mod Child
pub mod Session
pub mod Attach
pub mod Moves
