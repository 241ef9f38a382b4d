-- ===== src/Cmd/RdapClient.antt =====
-- cmd/rdap-client/main.go: the subcommands and the printing. The requests over gRPC are parameters.
pub mod Typed
use proto_ip.Prelude.{
  List, Result, [], if◌then◌else◌, is_empty, list_eq, map, nat_eq, ℕ, ◌++◌, ◌==◌, ◌∷◌,
}
use proto_ip.Cmd.Arguments.{Reading, parse_asn, parse_cidr, parse_ip}
use proto_ip.Cmd.Programs.{Outcome, asked_for, short_enum, unknown_subcommand, usage}
use proto_ip.Golang.Print.{Format, join, replace_byte}
use proto_ip.Golang.Text.{Text, codes, decimal}
use proto_ip.Messages.Ip.{Cidr, Ip}
use proto_ip.Messages.Names.{
  action_string, ip_version_string, kind_string, role_string, status_string,
}
use proto_ip.Messages.Rdap.{
  RdapAutnumResponse, RdapCidrBlock, RdapEntity, RdapEvent, RdapResponse, RdapStatus,
}

-- A line with its label.
abbrev labelled : Text → Text → Text
labelled label x = label ++ x

unfoldable pub status_words : List RdapStatus → Text
status_words xs =
    join (map (λ s. short_enum (status_string s) (codes "RDAP_STATUS_")) xs) (codes ", ")

-- `if x != "" { fmt.Printf }`
unfoldable pub line_if : Text → Text → List Text
line_if label x = if is_empty x then [] else (label ++ x) ∷ []

-- The body of the loop over entities.
unfoldable pub entity_lines : Format → RdapEntity → List Text
entity_lines f e =
    let roles =
      join (map (λ r. short_enum (role_string r) (codes "RDAP_ROLE_")) e.roles) (codes ",") in
    let kind_word = short_enum (kind_string e.kind) (codes "RDAP_ENTITY_KIND_") in
    (codes "entity:          handle="
      ++ (e.handle
          ++ (codes " kind="
              ++ (kind_word
                  ++ (codes " fn="
                      ++ (f.quote e.fn
                          ++ (codes " org=" ++ (f.quote e.org ++ (codes " roles=" ++ roles)))))))))
    ∷ (line_if (codes "  address:       ") (replace_byte 10 (codes " | ") e.address)
        ++ (line_if (codes "  phone:         ") e.phone
            ++ (if is_empty e.emails
                then []
                else (codes "  emails:        " ++ join e.emails (codes ", ")) ∷ [])))

-- The body of the loop over events.
unfoldable pub event_line : RdapEvent → Text
event_line ev =
    codes "event:           "
    ++ (short_enum (action_string ev.action) (codes "RDAP_EVENT_ACTION_")
        ++ (codes " @ " ++ ev.date))

unfoldable pub entities_lines : Format → List RdapEntity → List Text
entities_lines f [] = []
entities_lines f (e ∷ es) = entity_lines f e ++ entities_lines f es

-- The dash between the ends of a range, U+2013, between spaces.
abbrev dash : Text
dash = 32 ∷ 226 ∷ 128 ∷ 147 ∷ 32 ∷ []

unfoldable pub block_line : RdapCidrBlock → Text
block_line cb = codes "cidr_block:      " ++ (cb.prefix ++ (codes "/" ++ decimal cb.length))

-- printResponse
unfoldable pub print_response : Format → RdapResponse → List Text
print_response f resp =
    let n = resp.network in
    labelled (codes "handle:          ") n.handle
    ∷ labelled (codes "name:            ") n.name
    ∷ labelled (codes "type:            ") n.type
    ∷ labelled (codes "range:           ") (n.start_address ++ (dash ++ n.end_address))
    ∷ (map block_line n.cidr_blocks
        ++ (labelled (codes "ip_version:      ")
              (short_enum (ip_version_string n.ip_version) (codes "RDAP_IP_VERSION_"))
            ∷ labelled (codes "country:         ") n.country
            ∷ labelled (codes "status:          ") (status_words n.status)
            ∷ labelled (codes "parent_handle:   ") n.parent_handle
            ∷ labelled (codes "rdap_server:     ") n.rdap_server
            ∷ labelled (codes "conformance:     ") (join n.rdap_conformance (codes ", "))
            ∷ (entities_lines f n.entities ++ map event_line n.events)))

-- printAutnumResponse
unfoldable pub print_autnum_response : Format → RdapAutnumResponse → List Text
print_autnum_response f resp =
    let a = resp.autnum in
    labelled (codes "handle:          ") a.handle
    ∷ labelled (codes "name:            ") a.name
    ∷ labelled (codes "type:            ") a.type
    ∷ labelled (codes "country:         ") a.country
    ∷ labelled (codes "range:           AS")
        (decimal a.start_autnum ++ (dash ++ (codes "AS" ++ decimal a.end_autnum)))
    ∷ labelled (codes "status:          ") (status_words a.status)
    ∷ labelled (codes "rdap_server:     ") a.rdap_server
    ∷ labelled (codes "conformance:     ") (join a.rdap_conformance (codes ", "))
    ∷ (entities_lines f a.entities ++ map event_line a.events)

pub record RdapStub : Type 0 where
  pub lookup_ip_call : Ip → Result Text RdapResponse
  pub lookup_cidr_call : Cidr → Result Text RdapResponse
  pub lookup_autnum_call : ℕ → Result Text RdapAutnumResponse

unfoldable pub failed_call : Text → Text → Text → Text
failed_call method x e = method ++ (codes "(" ++ (x ++ (codes "): " ++ e)))

-- The switch of main.
unfoldable pub run_subcommand : Reading → Format → RdapStub → Text → Text → Outcome
run_subcommand r f stub cmd x =
    if cmd == codes "ip"
    then asked_for (parse_ip r x) stub.lookup_ip_call (failed_call (codes "LookupIP") x)
        (print_response f)
    else if cmd == codes "cidr"
    then asked_for (parse_cidr r x) stub.lookup_cidr_call (failed_call (codes "LookupCIDR") x)
        (print_response f)
    else if cmd == codes "asn"
    then asked_for (parse_asn r x) stub.lookup_autnum_call (failed_call (codes "LookupAutnum") x)
        (print_autnum_response f)
    else unknown_subcommand cmd

-- main, on the arguments behind the flags
unfoldable pub run_client : Reading → Format → RdapStub → List Text → Outcome
run_client r f stub (cmd ∷ x ∷ []) = run_subcommand r f stub cmd x
run_client r f stub _ = usage
