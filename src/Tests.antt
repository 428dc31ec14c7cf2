-- ===== src/Tests.antt =====
-- The theorems on concrete inputs, and runs of the modelled code.
mod Pools
mod Datagrams
mod Polls
mod Interfaces
mod Servers
mod Traffic
mod Trees
mod Commands
mod Exchanges
mod Messages
mod Addresses
use klevret.Prelude.{ℕ}
use klevret.IpAddress.{Ipv4Address}
use klevret.HardwareAddress.{MacAddress}

-- 10.0.0.n, and a client's address that ends in n.
abbrev pub ip : ℕ → Ipv4Address
ip n = record { octet_0 = 10; octet_1 = 0; octet_2 = 0; octet_3 = n }

abbrev pub mac : ℕ → MacAddress
mac n = record { byte_0 = 2; byte_1 = 0; byte_2 = 0; byte_3 = 0; byte_4 = 0; byte_5 = n }
