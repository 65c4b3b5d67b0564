-- ===== src/Kernel.antt =====
-- What the modules of the repository take from the kernel, as interfaces: the code behind them is
-- not in the repository.
pub mod Chain
pub mod Tree
pub mod Small
pub mod Index
