-- ===== src/System.antt =====
-- What the program sees of its machine: errors, a file system whose calls can fail, and the
-- actions on it. Package os and the like are modelled, as far as the program uses them.
pub mod World
pub mod Returns
pub mod Keeps
pub mod Files
pub mod Steps
pub mod Calm
