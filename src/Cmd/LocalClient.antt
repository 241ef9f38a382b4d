-- ===== src/Cmd/LocalClient.antt =====
-- cmd/client/main.go: the subcommands and the printing. A stream is the messages that it delivers,
-- and the error, if any, that it ends with in place of io.EOF.
use proto_ip.Prelude.{
  List, Option, Result, [], err, if◌then◌else◌, is_empty, list_eq, map, nat_eq, none, ok, some, ℕ,
  ◌++◌, ◌==◌, ◌∷◌,
}
use proto_ip.Cmd.Arguments.{fatal}
use proto_ip.Cmd.Programs.{Outcome, printed, stopped, unknown_subcommand, usage}
use proto_ip.Golang.Ints.{pos, put_uint64, uint64}
use proto_ip.Golang.NetIp.{NetIp, to4}
use proto_ip.Golang.Print.{Format, bool_text, hex_string, pad_twenty}
use proto_ip.Golang.Text.{Text, codes, decimal, trim_prefix}
use proto_ip.Messages.{get}
use proto_ip.Messages.Ip.{Cidr, Ip, Subnet, Version, prefix_length}
use proto_ip.Messages.Local.{Interface}
use proto_ip.Messages.Names.{class_string}

abbrev pub Stream : Type 0 → Type 0
Stream A = List A × Option Text

-- renderIP, with the getters on nil
unfoldable pub render_ip : (NetIp → Text) → Option Ip → Text
render_ip ip_string ip =
    let buf =
      put_uint64 (uint64 (get (pos 0) (λ (m : Ip). m.network_prefix) ip))
      ++ put_uint64 (uint64 (get (pos 0) (λ (m : Ip). m.interface_identifier) ip)) in
    elim (to4 buf) [ some quad ↦ ip_string quad | none ↦ ip_string buf ]

-- c.GetSubnet().GetPrefixLength(): 0 where another format is set.
unfoldable pub prefix_length_of : Option Subnet → ℕ
prefix_length_of (some (prefix_length n)) = n
prefix_length_of _ = 0

unfoldable pub address_line : (NetIp → Text) → Cidr → Text
address_line ip_string c =
    codes "    " ++ (render_ip ip_string c.ip ++ (codes "/" ++ decimal (prefix_length_of c.subnet)))

-- The body of the loop of printInterfaces.
unfoldable pub interface_lines : Format → (NetIp → Text) → Interface → List Text
interface_lines f ip_string iface =
    let mac =
      if is_empty iface.hardware_address
      then []
      else codes " mac=" ++ hex_string iface.hardware_address in
    (pad_twenty f iface.name
      ++ (codes " class="
          ++ (trim_prefix (class_string iface.class) (codes "INTERFACE_CLASS_")
              ++ (codes " up=" ++ (bool_text iface.up ++ mac)))))
    ∷ map (address_line ip_string) iface.addresses

-- The body of the loop of printIPs.
unfoldable pub ip_line : (NetIp → Text) → Ip → Text
ip_line ip_string ip =
    let family : Text = elim ip.version [
      | Version.v4 _ ↦ codes "IPv4"
      | Version.unset ↦ codes "IPv6"
      | Version.v6 _ ↦ codes "IPv6"
      | Version.versionless ↦ codes "IPv6"
    ] in
    family ++ (codes " " ++ render_ip ip_string (some ip))

unfoldable pub all_lines : Format → (NetIp → Text) → List Interface → List Text
all_lines f ip_string [] = []
all_lines f ip_string (iface ∷ ifs) = interface_lines f ip_string iface ++ all_lines f ip_string ifs

-- printInterfaces: the lines, and the error that it returns.
unfoldable pub print_interfaces :
    Format → (NetIp → Text) → Result Text (Stream Interface) → List Text × Option Text
print_interfaces f ip_string (err e) = ([], some e)
print_interfaces f ip_string (ok s) = (all_lines f ip_string s.0, s.1)

-- printIPs
unfoldable pub print_ips : (NetIp → Text) → Result Text (Stream Ip) → List Text × Option Text
print_ips ip_string (err e) = ([], some e)
print_ips ip_string (ok s) = (map (ip_line ip_string) s.0, s.1)

-- The lines that a run prints, and how it ends: with log.Fatalf on an error.
unfoldable pub ended : Text → List Text × Option Text → List Text × Outcome
ended what (lines, none) = (lines, printed lines)
ended what (lines, some e) = (lines, stopped (fatal (what ++ (codes ": " ++ e))))

pub record LocalStub : Type 0 where
  pub list_interfaces_call : Result Text (Stream Interface)
  pub list_ips_call : Result Text (Stream Ip)

unfoldable pub run_local_subcommand :
    Format → (NetIp → Text) → LocalStub → Text → List Text × Outcome
run_local_subcommand f ip_string stub cmd =
    if cmd == codes "interfaces"
    then ended (codes "interfaces") (print_interfaces f ip_string stub.list_interfaces_call)
    else if cmd == codes "ips"
    then ended (codes "ips") (print_ips ip_string stub.list_ips_call)
    else ([], unknown_subcommand cmd)

-- main, on the arguments behind the flags
unfoldable pub run_local_client :
    Format → (NetIp → Text) → LocalStub → List Text → List Text × Outcome
run_local_client f ip_string stub (cmd ∷ []) = run_local_subcommand f ip_string stub cmd
run_local_client f ip_string stub _ = ([], usage)
