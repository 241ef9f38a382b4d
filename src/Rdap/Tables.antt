-- ===== src/Rdap/Tables.antt =====
-- rdap/client.go: the tables from the words of RDAP JSON to the enums.
use proto_ip.Prelude.{List, [], list_eq, nat_eq, none, some, ◌∷◌}
use proto_ip.Golang.Maps.{lookup}
use proto_ip.Golang.Text.{Text, codes}
use proto_ip.Messages.Rdap.{RdapEntityKind, RdapEventAction, RdapIpVersion, RdapRole, RdapStatus}

abbrev pub ip_version_map : List (Text × RdapIpVersion)
ip_version_map =
    (codes "v4", RdapIpVersion.version_v4) ∷ (codes "v6", RdapIpVersion.version_v6) ∷ []

-- ipVersionMap[s]
unfoldable pub ip_version_of : Text → RdapIpVersion
ip_version_of s = elim (lookup s ip_version_map) [
  | none ↦ RdapIpVersion.version_unknown
  | some x ↦ x
]

abbrev pub role_map : List (Text × RdapRole)
role_map =
    (codes "registrant", RdapRole.registrant)
    ∷ (codes "technical", RdapRole.technical)
    ∷ (codes "administrative", RdapRole.administrative)
    ∷ (codes "abuse", RdapRole.abuse)
    ∷ (codes "noc", RdapRole.noc)
    ∷ (codes "billing", RdapRole.billing)
    ∷ (codes "registrar", RdapRole.registrar)
    ∷ (codes "reseller", RdapRole.reseller)
    ∷ (codes "sponsor", RdapRole.sponsor)
    ∷ (codes "proxy", RdapRole.role_proxy)
    ∷ (codes "notifications", RdapRole.notifications)
    ∷ (codes "nocDefaultAbuseContact", RdapRole.noc_default_abuse_contact)
    ∷ (codes "routing", RdapRole.routing)
    ∷ []

-- roleMap[s]
unfoldable pub role_of : Text → RdapRole
role_of s = elim (lookup s role_map) [ none ↦ RdapRole.role_unknown | some x ↦ x ]

abbrev pub event_action_map : List (Text × RdapEventAction)
event_action_map =
    (codes "registration", RdapEventAction.registration)
    ∷ (codes "reregistration", RdapEventAction.reregistration)
    ∷ (codes "last changed", RdapEventAction.last_changed)
    ∷ (codes "expiration", RdapEventAction.expiration)
    ∷ (codes "deletion", RdapEventAction.deletion)
    ∷ (codes "reinstantiation", RdapEventAction.reinstantiation)
    ∷ (codes "transfer", RdapEventAction.transfer)
    ∷ (codes "locked", RdapEventAction.action_locked)
    ∷ (codes "unlocked", RdapEventAction.unlocked)
    ∷ (codes "last update of RDAP database", RdapEventAction.last_update_of_rdap_database)
    ∷ (codes "registrar expiration", RdapEventAction.registrar_expiration)
    ∷ (codes "enum validation expiration", RdapEventAction.enum_validation_expiration)
    ∷ []

-- eventActionMap[s]
unfoldable pub event_action_of : Text → RdapEventAction
event_action_of s = elim (lookup s event_action_map) [
  | none ↦ RdapEventAction.action_unknown
  | some x ↦ x
]

abbrev pub status_map : List (Text × RdapStatus)
status_map =
    (codes "active", RdapStatus.active)
    ∷ (codes "inactive", RdapStatus.inactive)
    ∷ (codes "validated", RdapStatus.validated)
    ∷ (codes "renew prohibited", RdapStatus.renew_prohibited)
    ∷ (codes "update prohibited", RdapStatus.update_prohibited)
    ∷ (codes "transfer prohibited", RdapStatus.transfer_prohibited)
    ∷ (codes "delete prohibited", RdapStatus.delete_prohibited)
    ∷ (codes "proxy", RdapStatus.status_proxy)
    ∷ (codes "private", RdapStatus.private_status)
    ∷ (codes "removed", RdapStatus.removed)
    ∷ (codes "obscured", RdapStatus.obscured)
    ∷ (codes "associated", RdapStatus.associated)
    ∷ (codes "locked", RdapStatus.status_locked)
    ∷ (codes "pending create", RdapStatus.pending_create)
    ∷ (codes "pending renew", RdapStatus.pending_renew)
    ∷ (codes "pending transfer", RdapStatus.pending_transfer)
    ∷ (codes "pending update", RdapStatus.pending_update)
    ∷ (codes "pending delete", RdapStatus.pending_delete)
    ∷ (codes "server recover prohibited", RdapStatus.recover_prohibited)
    ∷ (codes "client recover prohibited", RdapStatus.recover_prohibited)
    ∷ []

-- statusMap[s]
unfoldable pub status_of : Text → RdapStatus
status_of s = elim (lookup s status_map) [ none ↦ RdapStatus.rdap_status_unknown | some x ↦ x ]

abbrev pub entity_kind_map : List (Text × RdapEntityKind)
entity_kind_map =
    (codes "individual", RdapEntityKind.individual)
    ∷ (codes "group", RdapEntityKind.group)
    ∷ (codes "org", RdapEntityKind.org)
    ∷ (codes "location", RdapEntityKind.location)
    ∷ (codes "application", RdapEntityKind.application)
    ∷ []

-- entityKindMap[s]
unfoldable pub entity_kind_of : Text → RdapEntityKind
entity_kind_of s = elim (lookup s entity_kind_map) [
  | none ↦ RdapEntityKind.kind_unknown
  | some x ↦ x
]
