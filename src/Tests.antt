-- ===== src/Tests.antt =====
-- Runs of the definitions on inputs of the test scripts, and the theorems at inputs that meet their
-- hypotheses.
mod Samples
mod Passes
mod Texts
mod Tokens
mod Program
mod Columns
mod Source
mod States
mod Tables
mod Words
