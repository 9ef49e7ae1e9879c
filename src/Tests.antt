-- ===== src/Tests.antt =====
-- The development run on concrete inputs, one module for each part of the program.
mod Codec
mod Json
mod Cluster
mod Collector
mod Evaluator
mod Sweep
mod Health
mod Mutator
mod Agent
mod Operator
mod Copies
mod System
