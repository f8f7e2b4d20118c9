-- ===== src/Examples.antt =====
-- The theorems at concrete inputs, and tests.
mod Utils
mod Groups
mod Scheduler
mod Match
mod Dimension
mod Keys
mod Master
mod Trees
mod Encoding
mod Model
mod Tables
mod Types
