-- ===== src/Tests.antt =====
-- Runs of the model at concrete inputs, and each theorem at an input that meets its hypotheses.
mod Exports
mod Grammars
mod Mappings
mod Samples
mod Queries
mod Requests
mod Shipped
mod Configs
mod Schemas
mod Services
mod Limits
