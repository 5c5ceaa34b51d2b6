-- ===== src/Tests.antt =====
-- Runs of the models on small inputs.
mod Objects
mod Storage
mod Leaves
mod Nodes
mod Heads
mod Trees
mod Siblings
mod Roots
mod Maps
mod Ledgers
