-- ===== src/Lib.antt =====
-- Klevret: a model of the DHCP service in dhcp/src, of the command line in cli/src and of the messages
-- between them in common/src and core/src, and the theorems on it.
--
-- The service reads datagrams from a UDP socket (UdpListener.cpp), parses them (DhcpMessage.cpp, which
-- calls DhcpOption.cpp for each option and IpAddress.cpp and HardwareAddress.cpp for addresses), takes
-- an address for the client from a pool (AddressPool.cpp), and broadcasts an offer or an acknowledgement
-- (DhcpServer.cpp). A pool is made by a line of the command line: its keys are collected (main.cpp,
-- Console.cpp), its words are looked up in the tree of the commands (Command.cpp), and a handler
-- (command_handlers.cpp) sends a request, which the core (core/src/main.cpp) hands on to the service
-- (ApiServer.cpp, ApiHandlers.cpp).
--
-- Files, with the code they model:
-- - Prelude: shared names; the outcome of a C++ call (`Result`), texts, `std::map` and `std::set`.
-- - Endians: dhcp/src/endians.hpp. The byte order of the host is an argument everywhere.
-- - WrapperForParsing: dhcp/src/WrapperForParsing.cpp and cli/src/WrapperForParsing.cpp, the character
--   source of the parsers, and the tests of characters in the C locale.
-- - IpAddress, IpAddress/Mask: dhcp/src/IpAddress.cpp, IPv4Address and IPv4SubnetMask.
-- - HardwareAddress: dhcp/src/HardwareAddress.cpp, MacAddress.
-- - OptionDescription, OptionDescription/Table: dhcp/src/DhcpOption.hpp and the table
--   `options_descriptions` of DhcpOption.cpp, with the checks of integers.
-- - DhcpOption, DhcpOption/Encode: the class DhcpOption, the constructor from a payload and
--   `to_network_data`.
-- - AddressPool: dhcp/src/AddressPool.cpp. The maps and sets are lists ordered and compared by the
--   `operator<` of their keys. AddressPool/Careful has the calls that keep the pairs of maps together.
-- - DhcpMessage: dhcp/src/DhcpMessage.cpp, the constructor from a datagram and `to_network_data`.
-- - DhcpServer: dhcp/src/DhcpServer.cpp, `make_offer`, `make_acknowledge`, `add_address_pool`,
--   `take_address` and one round of `main_loop`. DhcpServer/Traffic has the sequences of rounds with
--   pools added between them, as a step relation.
-- - UdpListener: dhcp/src/UdpListener.cpp, `calculate_checksum` and the loop of `divide_and_send`.
--   UdpListener/Packet: `send_packet`, up to the bytes that `sendto` is given.
--   UdpListener/Queue: the class UdpServer, its input queue and the body of `thread_func`.
-- - DhcpServer/Sending: `broadcast_send_to` of dhcp/src/UdpListener.cpp, and the rounds of `main_loop` that
--   send. DhcpServer/Polling: these rounds with the input queue; DhcpServer/Polling/Order has the
--   turns of the thread, the loop and the added pools, as a step relation.
-- - NetworkInterface: dhcp/src/NetworkInterface.cpp, the loop over the interfaces of the host.
-- - CommandLine/Addresses: cli/src/ip_addresses.cpp. CommandLine/Elements: the elements of commands and
--   the tests of words in cli/src/Command.cpp. CommandLine/Patterns: the constructor of Command and the
--   table `all_commands`. CommandLine/Tree: `add_command_to_tree` and `create_command_tree`.
-- - CommandLine/Analysis: `analyze_command` and `print_tree` of cli/src/main.cpp. CommandLine/Handlers:
--   cli/src/command_handlers.cpp. CommandLine/Console: the loop of `main`, a key at a time.
-- - Json: the property trees and JSON texts of Boost, as an interface of operations and laws.
-- - Api: common/src/ApiEndpoint.cpp, the messages, and common/src/ApiListener.cpp, the queue. Api/Relay:
--   core/src/main.cpp. Api/Service: dhcp/src/ApiServer.cpp and ApiHandlers.cpp. Api/Exchange: a request
--   and its reply through the three processes.
-- - TcpListener: common/src/TcoListener.cpp, the queue of packets and the rounds of
--   `_client_handler_thread`. TcpListener/Clients has the turns of several clients, as a step relation.
-- - Tests: the theorems on concrete inputs, and instances of the interfaces.
--
-- Conventions. An exception is `throw e`, with one constructor of `Error` for each place that
-- throws. A read behind a vector, a call through a null pointer, an overflow of an int and a function
-- that ends without a `return` are `undefined`. Integers of w bits are natural numbers with their
-- reduction written out. Text and byte vectors are lists of numbers. A pair of iterators is the vector
-- from the first on and the distance between them, so that a read behind the second is seen as such.
-- A pointer into the tree of the commands is the subtree it points to.
--
-- Fuel. `running` is the outcome of a loop that has used up its rounds. The loop over an option's
-- payload has a round for each byte of the vector and one more, and so has the loop over a message's
-- options: each round that goes on takes a byte. The loop over a pattern has a round for each character
-- and one more, for the same reason. The loop of the constructor of AddressPool and that of
-- `exclude_ip_range` take their rounds as an argument, since there are ranges on which the first does
-- not end.
--
-- Parameters. What is not under the repository's own code is an argument: the operations of Boost's
-- property trees (Json), `boost::algorithm::split` (`split` in CommandLine/Analysis), `sscanf` and
-- `inet_addr` (UdpListener/Packet), the answers of `getifaddrs` and `ioctl` (NetworkInterface), and
-- what `recvmsg` and `read` give (UdpListener/Queue, TcpListener). In Api/Exchange what one `recv`
-- gives of a packet is a function, since the sockets are streams; a `recv` or `send` that fails there
-- is left out. The replies of `main_loop` go through DhcpServer/Sending, where what `socket`,
-- `setsockopt` and `sendto` answer is a parameter; the other theorems on rounds are about the replies
-- that are handed to `broadcast_send_to`.
--
-- Not modelled: the calls that set up the sockets in dhcp/src/UdpListener.cpp, the locks and the
-- singletons, a pool that is added in the middle of a round of `main_loop`, the JSON forms of a pool,
-- which are stubs, the calls that set up the terminal in cli/src/Console.cpp, the sockets of
-- common/src/TcoListener.cpp, the class of TcpConnector.cpp, and frontend/.
pub mod Prelude
pub mod Endians
pub mod WrapperForParsing
pub mod IpAddress
pub mod HardwareAddress
pub mod OptionDescription
pub mod DhcpOption
pub mod AddressPool
pub mod DhcpMessage
pub mod DhcpServer
pub mod Json
pub mod CommandLine
pub mod Api
pub mod NetworkInterface
pub mod TcpListener
pub mod UdpListener
pub mod Tests
