-- ===== src/Golang/NetText.antt =====
-- The texts of addresses, prefixes and floats: `netip` and `strconv` parse and print them. The
-- programs use these only through the functions below, so their grammar is a parameter.
use proto_ip.Prelude.{Option, ℕ}
use proto_ip.Golang.NetIp.{NetIp}
use proto_ip.Golang.Netip.{Addr, Prefix}
use proto_ip.Golang.Text.{Text}

pub record NetText : Type 0 where
  -- netip.ParsePrefix, netip.ParseAddr and strconv.ParseFloat; none is an error.
  pub parse_prefix : Text → Option Prefix
  pub parse_addr : Text → Option Addr
  pub parse_float : Text → Option ℕ
  -- Prefix.String, Addr.String and net.IP.String
  pub prefix_string : Prefix → Text
  pub addr_string : Addr → Text
  pub ip_string : NetIp → Text
