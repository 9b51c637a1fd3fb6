-- ===== src/Examples.antt =====
-- The theorems of the development at concrete inputs.
mod Data
mod Grants
mod Store
mod Wires
mod Paths
mod Workers
mod Pools
mod Frontend
