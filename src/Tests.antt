-- ===== src/Tests.antt =====
-- Runs of the definitions on concrete inputs.
mod Threads
mod Outputs
mod Inputs
mod Files
mod Startup
mod Lifetime
mod Host
mod Lines
mod DataSets
mod Meanings
mod Sensors
mod LabelFile
