-- ===== src/Dns.antt =====
-- src/dns.c and src/dns.h: checking, reading and rewriting DNS messages. A message is the list of
-- its bytes; `msg` and `len` of the code are that list and its length.
pub mod Header
pub mod Name
pub mod Record
pub mod Check
pub mod Ttl
pub mod Build
pub mod Scan
pub mod Domains
