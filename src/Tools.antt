-- ===== src/Tools.antt =====
-- tools/: the tools' flags and names, their inputs, the dashboard pages, and the gate of every call.
pub mod Flags
pub mod Inputs
pub mod Pages
pub mod Graph
pub mod Authorize
pub mod Gate
pub mod Stack
pub mod Catalogue
pub mod Reports
pub mod Statements
pub mod Instance
