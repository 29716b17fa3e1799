-- ===== src/Tests.antt =====
-- Runs of the model on small inputs, and the theorems at inputs that meet their hypotheses.
mod Ingestion
mod Utils
mod Publisher
mod Graph
mod Decision
mod Experiments
mod Processing
mod Api
mod Versions
mod Queries
mod Paths
mod Events
mod Gate
mod Admin
mod Scores
mod Database
mod Compliance
mod Flows
mod Generation
mod Daily
mod Persistence
