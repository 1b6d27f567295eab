-- ===== src/Tests.antt =====
-- Examples: concrete peers, networks and requests, and each property at one of them.
mod Data
mod Places
mod Peers
mod Caches
mod Rounds
mod Races
mod Requests
mod Outgoing
mod Upkeep
mod Hosts
mod Vnodes
mod Signed
