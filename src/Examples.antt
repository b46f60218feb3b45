-- ===== src/Examples.antt =====
-- The theorems at concrete inputs, and runs of the definitions.
mod Frames
mod Boot
mod Paging
mod Tables
mod Text
mod Scheduling
mod Family
mod Typing
mod Disk
mod Archives
mod Heaps
mod Memory
mod Programs
