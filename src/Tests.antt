-- ===== src/Tests.antt =====
-- Runs of the definitions at small inputs, and the theorems at inputs that meet their hypotheses.
pub mod Sources
mod Input
mod Lexer
mod Output
mod Symbols
mod Types
mod Ir
mod Trees
mod Logic
mod Parser
