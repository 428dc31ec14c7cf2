-- ===== src/CommandLine.antt =====
-- cli/src: the command line, from the keys to the requests that it sends.
pub mod Addresses
pub mod Elements
pub mod Octets
pub mod Patterns
pub mod Tree
pub mod Analysis
pub mod Handlers
pub mod Console
