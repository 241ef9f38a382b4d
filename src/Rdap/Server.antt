-- ===== src/Rdap/Server.antt =====
-- rdap/server.go: the RDAPLookup service over a client, and RenderCIDR.
pub mod Codes
pub mod Rendering
use proto_ip.Prelude.{
  Option, Result, [], err, if◌then◌else◌, list_eq, map_err, nat_eq, none, ok, some, ℕ, ◌++◌, ◌==◌,
}
use proto_ip.Golang.Grpc.{Status, invalid_argument, unavailable}
use proto_ip.Golang.NetIp.{NetIp}
use proto_ip.Golang.NetText.{NetText}
use proto_ip.Golang.Text.{Text, codes, decimal}
use proto_ip.Messages.{get}
use proto_ip.Messages.Ip.{Cidr, Ip}
use proto_ip.Rdap.Bootstrap.{Bootstrap}
use proto_ip.Rdap.Client.{
  SubnetText, lookup_autnum, lookup_cidr, lookup_ip, render_net_ip, subnet_error_text,
  subnet_prefix_len,
}
use proto_ip.Rdap.Wire.{ip_from_proto}

unfoldable pub unavailable_error : Text → Status
unavailable_error message = record { code = unavailable; message = message }

unfoldable pub argument_error : Text → Status
argument_error message = record { code = invalid_argument; message = message }

-- `if err != nil { return nil, status.Errorf(codes.Unavailable, …) }`
unfoldable pub answered_by {ℓ} : {A : Type ℓ} → Text → Result Text A → Result Status A
answered_by what r = map_err (λ e. unavailable_error (what ++ e)) r

module _ {W A : Type 0} (t : NetText) (b : Bootstrap)
    (query : Text → Text → W → Result Text A × W) where
  -- LookupIP
  unfoldable pub serve_ip : Option Ip → W → Result Status A × W
  serve_ip ip w =
      let asked = lookup_ip t b query ip w in (answered_by (codes "RDAP lookup: ") asked.0, asked.1)

  -- LookupCIDR
  unfoldable pub serve_cidr : SubnetText → Option Cidr → W → Result Status A × W
  serve_cidr n cidr w = elim (get none (λ (c : Cidr). c.ip) cidr) [
    | none ↦ (err (argument_error (codes "CIDR.ip must be set")), w)
    | some ip ↦ elim (get none (λ (c : Cidr). c.subnet) cidr) [
      | none ↦ (err (argument_error (codes "CIDR.subnet must be set")), w)
      | some subnet ↦
          let asked = lookup_cidr t b query n cidr w in
          (answered_by (codes "RDAP lookup: ") asked.0, asked.1)
    ]
  ]

  -- LookupAutnum
  unfoldable pub serve_autnum : ℕ → W → Result Status A × W
  serve_autnum asn w =
      let asked = lookup_autnum t b query asn w in
      if asn == 0
      then (err (argument_error (codes "ASN.number must be non-zero")), w)
      else (answered_by (codes "RDAP autnum lookup: ") asked.0, asked.1)

-- RenderCIDR; a nil address is rendered as net.IP(nil).
unfoldable pub render_cidr : NetText → SubnetText → Option Cidr → Text
render_cidr t n cidr = elim (subnet_prefix_len n (get none (λ (c : Cidr). c.subnet) cidr)) [
  | err e ↦ codes "<invalid CIDR: " ++ subnet_error_text n e ++ codes ">"
  | ok p ↦
      render_net_ip t
        (get [] (λ (ip : NetIp). ip) (ip_from_proto (get none (λ (c : Cidr). c.ip) cidr)))
      ++ codes "/"
      ++ decimal p
]
