-- ===== src/Golang.antt =====
-- What the source uses of Go's language and standard library: strings, integers, `net/netip`
-- addresses, `net.IP` slices, maps, `bufio.Scanner`, and the status codes of gRPC.
pub mod Text
pub mod Ints
pub mod Netip
pub mod NetIp
pub mod Scanner
pub mod Maps
pub mod NetText
pub mod Grpc
pub mod Choice
pub mod Print
