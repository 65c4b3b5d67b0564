-- ===== src/S2fs.antt =====
-- Assignment 5 Super Simple File System/s2fs.c: the module that mounts a tree of one directory and
-- one file.
pub mod Read
pub mod Mount
pub mod Files
