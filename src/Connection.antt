-- ===== src/Connection.antt =====
-- scanner/connection.rs: the connection properties. The subject of a DER certificate, the network
-- and the test for an IP address come from other crates and are arguments.
pub mod Hsts
pub mod Sni
pub mod ForwardSecrecy
pub mod Store
pub mod Probes
pub mod Inspect
