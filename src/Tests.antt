-- ===== src/Tests.antt =====
-- Runs of the code of internal/ on small inputs, which the theorems of the other modules cover.
mod Pools
mod Chain
mod Toys
mod Node
mod Rpc
mod Service
mod Running
mod Requests
