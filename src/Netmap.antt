-- ===== src/Netmap.antt =====
-- components/tailscale/src/tailscale_netmap.c: what the control server's network map says of the peers
-- and relays, and the tables that it is kept in. The functions of lwIP are parameters.
pub mod Candidates
pub mod Peers
pub mod Lookup
mod Tests
