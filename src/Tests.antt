-- ===== src/Tests.antt =====
-- Runs of the model at fixed inputs, and the theorems at inputs that meet their hypotheses.
mod Tokens
mod TokenizerTests
mod MatchTests
mod ArgsTests
mod XformsTests
mod WispTests
mod SessionTests
mod ClientTests
mod RstTests
mod ParserTests
mod RegexTests
