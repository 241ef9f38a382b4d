-- ===== src/Tests.antt =====
-- Sample values, and the theorems applied to them.
mod Samples
mod Merging
mod Sorting
mod Loads
mod Tables
mod Origins
mod Wires
mod Registries
mod Answers
mod Feeds
mod Dumps
mod Calls
mod Queries
mod Compositions
mod Programs
mod Streams
