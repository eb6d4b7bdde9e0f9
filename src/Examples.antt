-- ===== src/Examples.antt =====
-- Tests and theorems at concrete inputs.
mod Handling
mod Failing
mod Publishing
mod Setting
mod Sharing
mod Consuming
mod Living
mod Running
mod Programs
mod Routing
mod Transporting
mod Database
mod Working
mod Configuring
