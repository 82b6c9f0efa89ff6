-- ===== src/Net.antt =====
-- IP addresses, as the server and the clients judge them.
pub mod Address
pub mod Policy
pub mod Url
