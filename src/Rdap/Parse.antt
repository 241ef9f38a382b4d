-- ===== src/Rdap/Parse.antt =====
-- rdap/client.go: the structs of RDAP JSON, and the messages made of them. The decoding into the
-- structs is encoding/json's.
use proto_ip.Prelude.{List, [], filter, if◌then◌else◌, is_empty, map, not, ℕ, ◌∷◌}
use proto_ip.Golang.Text.{Text}
use proto_ip.Messages.Rdap.{RdapAutnum, RdapCidrBlock, RdapEntity, RdapEvent, RdapNetwork}
use proto_ip.Rdap.Tables.{entity_kind_of, event_action_of, ip_version_of, role_of, status_of}
use proto_ip.Rdap.Vcard.{JsonText, parse_vcard}

pub record EntityJson : Type 0 where
  pub handle : Text
  pub vcard_array : Text
  pub roles : List Text

pub record EventJson : Type 0 where
  pub event_action : Text
  pub event_date : Text

pub record Cidr0Json : Type 0 where
  pub v4_prefix : Text
  pub v6_prefix : Text
  pub length : ℕ

-- rdapJSON; a link is its href.
pub record RdapJson : Type 0 where
  pub handle : Text
  pub name : Text
  pub type : Text
  pub start_address : Text
  pub end_address : Text
  pub ip_version : Text
  pub country : Text
  pub status : List Text
  pub entities : List EntityJson
  pub events : List EventJson
  pub links : List Text
  pub parent_handle : Text
  pub cidr0_cidrs : List Cidr0Json
  pub rdap_conformance : List Text

pub record AutnumJson : Type 0 where
  pub handle : Text
  pub name : Text
  pub type : Text
  pub country : Text
  pub start_autnum : ℕ
  pub end_autnum : ℕ
  pub status : List Text
  pub entities : List EntityJson
  pub events : List EventJson
  pub links : List Text
  pub rdap_conformance : List Text

-- The body of the loop over entities.
unfoldable pub entity_of : JsonText → EntityJson → RdapEntity
entity_of d e =
    let vc = parse_vcard d e.vcard_array in
    record {
      handle = e.handle;
      fn = vc.fn;
      roles = map role_of e.roles;
      emails = vc.emails;
      kind = entity_kind_of vc.kind;
      org = vc.org;
      address = vc.address;
      phone = vc.phone;
    }

unfoldable pub event_of : EventJson → RdapEvent
event_of ev = record { action = event_action_of ev.event_action; date = ev.event_date }

-- The loop over links keeps those that are not empty.
unfoldable pub links_of : List Text → List Text
links_of links = filter (λ (href : Text). not (is_empty href)) links

-- `prefix := c.V4Prefix; if prefix == "" { prefix = c.V6Prefix }`
unfoldable pub prefix_of : Cidr0Json → Text
prefix_of c = if is_empty c.v4_prefix then c.v6_prefix else c.v4_prefix

-- The loop over the CIDR blocks.
unfoldable pub blocks_of : List Cidr0Json → List RdapCidrBlock
blocks_of [] = []
blocks_of (c ∷ cs) =
    let rest = blocks_of cs in
    if is_empty (prefix_of c)
    then rest
    else record { prefix = prefix_of c; length = c.length } ∷ rest

-- parseNetwork, on the decoded body
unfoldable pub network_of : JsonText → RdapJson → Text → RdapNetwork
network_of d r server = record {
  handle = r.handle;
  name = r.name;
  type = r.type;
  start_address = r.start_address;
  end_address = r.end_address;
  ip_version = ip_version_of r.ip_version;
  country = r.country;
  status = map status_of r.status;
  entities = map (entity_of d) r.entities;
  events = map event_of r.events;
  links = links_of r.links;
  rdap_server = server;
  parent_handle = r.parent_handle;
  cidr_blocks = blocks_of r.cidr0_cidrs;
  rdap_conformance = r.rdap_conformance;
}

-- parseAutnum, on the decoded body
unfoldable pub autnum_of : JsonText → AutnumJson → Text → RdapAutnum
autnum_of d r server = record {
  handle = r.handle;
  name = r.name;
  type = r.type;
  country = r.country;
  start_autnum = r.start_autnum;
  end_autnum = r.end_autnum;
  status = map status_of r.status;
  entities = map (entity_of d) r.entities;
  events = map event_of r.events;
  links = links_of r.links;
  rdap_server = server;
  rdap_conformance = r.rdap_conformance;
}
