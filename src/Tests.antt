-- ===== src/Tests.antt =====
-- Runs at concrete inputs, and the theorems applied to them.
mod Fixtures
mod Health
mod Decide
mod Ranking
mod Persist
mod Icmp
mod IpTable
mod Route
mod Config
mod Status
mod Words
mod Hosts
mod Workers
mod Ticks
mod Http
mod Subprocess
mod Atomic
mod Writer
mod HostsParse
mod Save
mod Bin
mod Watchdog
