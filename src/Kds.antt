-- ===== src/Kds.antt =====
-- Assignment 2 Kernel Data Structures/kds.c: the module that stores the integers of its parameter in
-- the kernel's containers.
pub mod Parse
pub mod HashTable
pub mod RbTree
pub mod LinkedList
pub mod Bitmap
pub mod Index
pub mod Init
