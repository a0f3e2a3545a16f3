-- ===== src/Examples.antt =====
-- A small state with consistent books, and the theorems applied to it.
mod Books
mod Runs
mod Applied
mod Operators
mod Signed
mod Shares
mod SignedIn
