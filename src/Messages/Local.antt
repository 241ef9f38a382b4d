-- ===== src/Messages/Local.antt =====
-- proto/ippb/local_lookup.pb.go.
use proto_ip.Prelude.{Bool, List, ℕ, ◌+◌}
use proto_ip.Golang.Text.{Text}
use proto_ip.Messages.Ip.{Cidr}

-- `unrecognized` stands for a number that the enum does not name, which a client may send.
pub data InterfaceClass : Type 0 where
  unknown loopback ethernet wireless tunnel virtual : InterfaceClass
  unrecognized : ℕ → InterfaceClass

unfoldable pub class_number : InterfaceClass → ℕ
class_number unknown = 0
class_number loopback = 1
class_number ethernet = 2
class_number wireless = 3
class_number tunnel = 4
class_number virtual = 5
class_number (unrecognized n) = 6 + n

pub record Interface : Type 0 where
  pub class : InterfaceClass
  pub name : Text
  pub hardware_address : List ℕ
  pub addresses : List Cidr
  pub up : Bool

pub record LookupFilter : Type 0 where
  pub classes : List InterfaceClass
  pub names : List Text
  pub only_routable : Bool
