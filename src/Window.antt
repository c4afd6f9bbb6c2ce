-- ===== src/Window.antt =====
-- src/ui/MainWindow.cpp: the window that starts and stops the pipeline.
pub mod Pipeline
pub mod Tree
pub mod Listing
pub mod Rooted
pub mod Placed
pub mod Lineage
pub mod Consistent
pub mod Switched
pub mod Runs
pub mod Services
pub mod Sliders
pub mod Shown
pub mod Unchecked
pub mod Wired
pub mod Bursts
pub mod Framed
pub mod Apart
pub mod BurstShown
pub mod BurstActs
pub mod BurstRuns
pub mod Settings
pub mod Bindings
pub mod Duplicates
pub mod Counted
pub mod CountSteps
pub mod DuplicateSteps
pub mod DuplicateRuns
mod Examples
mod Tests
