-- ===== src/SparseTree/Tests.antt =====
-- The tree of smt-v3/smt.go at concrete keys.
mod Codes
mod Trees
