-- ===== src/Messages/Rdap.antt =====
-- proto/ippb/rdap.pb.go.
use proto_ip.Prelude.{List, ℕ}
use proto_ip.Golang.Text.{Text}

pub data RdapIpVersion : Type 0 where
  version_unknown version_v4 version_v6 : RdapIpVersion

pub data RdapRole : Type 0 where
  role_unknown registrant technical administrative abuse noc billing : RdapRole
  registrar reseller sponsor role_proxy notifications : RdapRole
  noc_default_abuse_contact routing : RdapRole

pub data RdapEventAction : Type 0 where
  action_unknown registration reregistration last_changed expiration : RdapEventAction
  deletion reinstantiation transfer action_locked unlocked : RdapEventAction
  last_update_of_rdap_database registrar_expiration : RdapEventAction
  enum_validation_expiration : RdapEventAction

pub data RdapStatus : Type 0 where
  rdap_status_unknown active inactive validated renew_prohibited : RdapStatus
  update_prohibited transfer_prohibited delete_prohibited status_proxy : RdapStatus
  private_status removed obscured associated status_locked pending_create : RdapStatus
  pending_renew pending_transfer pending_update pending_delete : RdapStatus
  recover_prohibited : RdapStatus

pub data RdapEntityKind : Type 0 where
  kind_unknown individual group org location application : RdapEntityKind

pub record RdapCidrBlock : Type 0 where
  pub prefix : Text
  pub length : ℕ

pub record RdapEntity : Type 0 where
  pub handle : Text
  pub fn : Text
  pub roles : List RdapRole
  pub emails : List Text
  pub kind : RdapEntityKind
  pub org : Text
  pub address : Text
  pub phone : Text

pub record RdapEvent : Type 0 where
  pub action : RdapEventAction
  pub date : Text

pub record RdapNetwork : Type 0 where
  pub handle : Text
  pub name : Text
  pub type : Text
  pub start_address : Text
  pub end_address : Text
  pub ip_version : RdapIpVersion
  pub country : Text
  pub status : List RdapStatus
  pub entities : List RdapEntity
  pub events : List RdapEvent
  pub links : List Text
  pub rdap_server : Text
  pub parent_handle : Text
  pub cidr_blocks : List RdapCidrBlock
  pub rdap_conformance : List Text

pub record RdapResponse : Type 0 where
  pub network : RdapNetwork
  pub raw_json : Text

pub record RdapAutnum : Type 0 where
  pub handle : Text
  pub name : Text
  pub type : Text
  pub country : Text
  pub start_autnum : ℕ
  pub end_autnum : ℕ
  pub status : List RdapStatus
  pub entities : List RdapEntity
  pub events : List RdapEvent
  pub links : List Text
  pub rdap_server : Text
  pub rdap_conformance : List Text

pub record RdapAutnumResponse : Type 0 where
  pub autnum : RdapAutnum
  pub raw_json : Text
