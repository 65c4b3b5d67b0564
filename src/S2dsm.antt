-- ===== src/S2dsm.antt =====
-- Assignment 3 User faults/Part 3/s2dsm.c: two processes share pages by the MSI protocol.
pub mod Region
pub mod Protocol
pub mod Bounds
pub mod Exclusion
pub mod Text
pub mod Prompt
pub mod Memory
pub mod Race
pub mod Overlap
pub mod Pairing
pub mod Offer
pub mod Start
pub mod Responder
pub mod Request
