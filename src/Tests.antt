-- ===== src/Tests.antt =====
-- Runs of the definitions at concrete inputs, and the theorems applied to them.
mod Data
mod Clocks
mod Requests
mod Rings
mod Hints
mod Files
mod Routes
mod Tables
mod Storage
mod Nodes
mod Streams
