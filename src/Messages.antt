-- ===== src/Messages.antt =====
-- The protobuf messages of proto/ippb as Go structs: a pointer is an Option, and a getter on a nil
-- message gives the zero value.
pub mod Ip
pub mod Geo
pub mod Local
pub mod Rdap
pub mod Names
use proto_ip.Prelude.{Option, none, some}

-- A getter: `def` for a nil message.
abbrev pub get {ℓ κ} : {M : Type ℓ} {A : Type κ} → A → (M → A) → Option M → A
get def field none = def
get def field (some m) = field m
