-- ===== src/Tests.antt =====
-- Runs of the model at concrete inputs, and the theorems at inputs that meet their hypotheses.
mod Simulation
mod Rules
mod Repository
mod Pipeline
mod Instagram
mod Client
mod Extraction
mod Api
mod Handlers
mod Server
