-- ===== src/Tests/Origins.antt =====
-- Route-origin validation of a host in two authorized prefixes, one row of the dump broken, and the
-- facts of an AS.
use mathlib.Core.List.{Memᴰ}
use proto_ip.Prelude.{
  List, Result, [], err, false, if◌then◌else◌, list_beq, list_eq, nat_eq, none, ok, refl, suc, true,
  ℕ, ◌==◌, ◌↔◌, ◌∷◌, ◌≡◌,
}
use proto_ip.Geoip.NetInfo.{
  AutnumFacts, autnum_facts_from_rdap, enrich, remember, set_abuse, take_entities, take_role,
  take_roles,
}
use proto_ip.Geoip.NetInfo.Cache.{enrich-enrich, enrich_failed}
use proto_ip.Geoip.NetInfo.Facts.{abuse_offer, autnum_facts-first, offers, org_offer}
use proto_ip.Geoip.Rpki.{
  VrpJson, add, add_all, append_at, at, covering, covering_from, empty_set, index, judge,
  parse_vrp_asn, probe, validate,
}
use proto_ip.Geoip.Rpki.Index.{log_of}
use proto_ip.Geoip.Rpki.Validation.{IsVerdict, validate-IsVerdict, validate-covering}
use proto_ip.Golang.Choice.{first_text}
use proto_ip.Golang.Ints.{pos}
use proto_ip.Golang.Maps.{insert, lookup}
use proto_ip.Golang.Netip.{
  addr_beq, addr_prefix, bit_len, contains, has_zone, ip4, is4, keep_bits, masked, prefix_beq,
}
use proto_ip.Golang.Text.{Text, codes, cut_prefix, parse_uint32, trim_byte, trim_prefix, trim_space}
use proto_ip.Messages.Geo.{invalid_status, not_found, valid}
use proto_ip.Messages.Rdap.{
  RdapAutnum, RdapAutnumResponse, RdapEntity, RdapEntityKind, RdapRole, registrant,
}
use proto_ip.Tests.Samples.{host, sample-IsValid, texts, wide}

abbrev rows : List VrpJson
rows =
    record { prefix = codes "10.0.0.0/8"; max_length = pos 8; asn = codes "64496" }
    ∷ record { prefix = codes "nonsense"; max_length = pos 8; asn = codes "64500" }
    ∷ record { prefix = codes "10.1.0.0/16"; max_length = pos 16; asn = codes "\"AS64497\"" }
    ∷ []

program : Unit {0}
unfolding validate add_all enrich lookup remember autnum_facts_from_rdap take_entities take_roles
    take_role set_abuse judge covering covering_from probe addr_prefix at is4 add parse_vrp_asn
    parse_uint32 trim_prefix trim_byte trim_space list_beq index masked append_at insert addr_beq
    bit_len keep_bits prefix_beq cut_prefix
program = tt

no_zone : has_zone host ≡ false
unfolding has_zone
no_zone = refl

validate-IsVerdict_example :
    IsVerdict (log_of texts rows) host 64497 (validate (add_all texts rows empty_set) host 64497).0
validate-IsVerdict_example = validate-IsVerdict texts sample-IsValid rows host no_zone 64497

validate-covering_example :
    Memᴰ
      (record { prefix = wide; max_len = pos 8; asn = 64496 })
      (validate (add_all texts rows empty_set) host 0).1
    ↔ (Memᴰ (record { prefix = wide; max_len = pos 8; asn = 64496 }) (log_of texts rows)
        × (contains wide host ≡ true))
validate-covering_example =
    validate-covering texts sample-IsValid rows host no_zone 0
      (record { prefix = wide; max_len = pos 8; asn = 64496 })

status_of : (validate (add_all texts rows empty_set) host 64497).0 ≡ valid
unfolding program
status_of = refl

status_of_other : (validate (add_all texts rows empty_set) host 64500).0 ≡ invalid_status
unfolding program
status_of_other = refl

-- Nothing covers the address, so the origin 0 is not found.
status_of_uncovered : (validate (add_all texts rows empty_set) (ip4 0) 0).0 ≡ not_found
unfolding program
status_of_uncovered = refl

abbrev contact : RdapEntity
contact = record {
  handle = [];
  fn = codes "Example Net";
  roles = RdapRole.abuse ∷ registrant ∷ [];
  emails = codes "abuse@example.net" ∷ [];
  kind = RdapEntityKind.group;
  org = [];
  address = [];
  phone = [];
}

abbrev autnum : RdapAutnum
autnum = record {
  handle = codes "AS64500";
  name = codes "EXAMPLE";
  type = [];
  country = codes "DE";
  start_autnum = 64500;
  end_autnum = 64500;
  status = [];
  entities = contact ∷ [];
  events = [];
  links = [];
  rdap_server = [];
  rdap_conformance = [];
}

abbrev facts : AutnumFacts
facts = record {
  name = codes "EXAMPLE";
  org = codes "Example Net";
  country = codes "DE";
  abuse = codes "abuse@example.net";
  handle = codes "AS64500";
}

-- A registry that counts its queries and knows one AS.
abbrev registry : ℕ → ℕ → Result Text RdapAutnumResponse × ℕ
registry n count = (
  if n == 64500 then ok (record { autnum = autnum; raw_json = [] }) else err (codes "none"),
  suc count,
)

autnum_facts-first_example :
    ((autnum_facts_from_rdap autnum).org ≡ first_text (offers org_offer autnum.entities))
    × ((autnum_facts_from_rdap autnum).abuse ≡ first_text (offers abuse_offer autnum.entities))
autnum_facts-first_example = autnum_facts-first autnum

first_answer : (enrich registry 64500 [] 0).0.0 ≡ ok facts
unfolding program
first_answer = refl

enrich-enrich_example :
    enrich registry 64500 (enrich registry 64500 [] 0).0.1 7
    ≡ ((ok facts, (enrich registry 64500 [] 0).0.1), 7)
enrich-enrich_example = enrich-enrich registry 64500 facts [] 0 7 first_answer

first_failure : (enrich registry 5 [] 0).0.0 ≡ err (codes "none")
unfolding program
first_failure = refl

failed_again : ((enrich registry 5 [] 0).0.1 ≡ []) × (lookup {K = ℕ} {V = AutnumFacts} 5 [] ≡ none)
failed_again = enrich_failed registry 5 (codes "none") [] 0 first_failure
