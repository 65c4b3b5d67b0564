-- ===== src/Examples.antt =====
-- The theorems at concrete inputs, and tests of the definitions.
mod Apis
mod CallRuns
mod KdsRuns
mod PerftopRuns
mod S2dsmRuns
mod SessionRuns
mod StartRuns
mod S2fsRuns
mod UffdRuns
