-- ===== src/Tests.antt =====
-- Runs at concrete inputs, and the theorems at inputs that meet their hypotheses.
mod Bytes
mod Str
mod Numeric
mod Atexit
mod Tsd
mod Tlv
mod Context
mod Calls
mod Messages
mod Stdlib
mod Sort
mod Print
mod Lock
mod Thread
mod Dir
mod Stream
mod Mach
mod Codes
mod Start
mod Exit
mod Union
