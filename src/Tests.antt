-- ===== src/Tests.antt =====
-- The theorems applied at concrete inputs, by the part of the program that they are about.
mod Wire
mod Gateway
mod State
mod Ids
mod Calls
mod Steps
mod Wrapping
mod Epochs
mod Bitmaps
