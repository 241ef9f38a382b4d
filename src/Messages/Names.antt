-- ===== src/Messages/Names.antt =====
-- The names of the enums, which String gives.
use proto_ip.Prelude.{◌+◌}
use proto_ip.Golang.Text.{Text, codes, decimal}
use proto_ip.Messages.Geo.{GeoConfidence, GeoGranularity, GeoSource, RpkiStatus}
use proto_ip.Messages.Local.{InterfaceClass}
use proto_ip.Messages.Rdap.{RdapEntityKind, RdapEventAction, RdapIpVersion, RdapRole, RdapStatus}

unfoldable pub source_string : GeoSource → Text
source_string GeoSource.source_unknown = codes "GEO_SOURCE_UNKNOWN"
source_string GeoSource.geofeed = codes "GEO_SOURCE_GEOFEED"
source_string GeoSource.dbip_lite = codes "GEO_SOURCE_DBIP_LITE"
source_string GeoSource.ipmap = codes "GEO_SOURCE_IPMAP"
source_string GeoSource.ip2location_lite = codes "GEO_SOURCE_IP2LOCATION_LITE"
source_string GeoSource.iptoasn = codes "GEO_SOURCE_IPTOASN"

unfoldable pub confidence_string : GeoConfidence → Text
confidence_string GeoConfidence.confidence_unknown = codes "GEO_CONFIDENCE_UNKNOWN"
confidence_string GeoConfidence.low = codes "GEO_CONFIDENCE_LOW"
confidence_string GeoConfidence.medium = codes "GEO_CONFIDENCE_MEDIUM"
confidence_string GeoConfidence.high = codes "GEO_CONFIDENCE_HIGH"

unfoldable pub granularity_string : GeoGranularity → Text
granularity_string GeoGranularity.granularity_unknown = codes "GEO_GRANULARITY_UNKNOWN"
granularity_string GeoGranularity.country = codes "GEO_GRANULARITY_COUNTRY"
granularity_string GeoGranularity.region = codes "GEO_GRANULARITY_REGION"
granularity_string GeoGranularity.city = codes "GEO_GRANULARITY_CITY"
granularity_string GeoGranularity.coordinates = codes "GEO_GRANULARITY_COORDINATES"

unfoldable pub rpki_string : RpkiStatus → Text
rpki_string RpkiStatus.status_unknown = codes "RPKI_STATUS_UNKNOWN"
rpki_string RpkiStatus.valid = codes "RPKI_STATUS_VALID"
rpki_string RpkiStatus.invalid_status = codes "RPKI_STATUS_INVALID"
rpki_string RpkiStatus.not_found = codes "RPKI_STATUS_NOT_FOUND"

unfoldable pub ip_version_string : RdapIpVersion → Text
ip_version_string RdapIpVersion.version_unknown = codes "RDAP_IP_VERSION_UNKNOWN"
ip_version_string RdapIpVersion.version_v4 = codes "RDAP_IP_VERSION_V4"
ip_version_string RdapIpVersion.version_v6 = codes "RDAP_IP_VERSION_V6"

unfoldable pub role_string : RdapRole → Text
role_string RdapRole.role_unknown = codes "RDAP_ROLE_UNKNOWN"
role_string RdapRole.registrant = codes "RDAP_ROLE_REGISTRANT"
role_string RdapRole.technical = codes "RDAP_ROLE_TECHNICAL"
role_string RdapRole.administrative = codes "RDAP_ROLE_ADMINISTRATIVE"
role_string RdapRole.abuse = codes "RDAP_ROLE_ABUSE"
role_string RdapRole.noc = codes "RDAP_ROLE_NOC"
role_string RdapRole.billing = codes "RDAP_ROLE_BILLING"
role_string RdapRole.registrar = codes "RDAP_ROLE_REGISTRAR"
role_string RdapRole.reseller = codes "RDAP_ROLE_RESELLER"
role_string RdapRole.sponsor = codes "RDAP_ROLE_SPONSOR"
role_string RdapRole.role_proxy = codes "RDAP_ROLE_PROXY"
role_string RdapRole.notifications = codes "RDAP_ROLE_NOTIFICATIONS"
role_string RdapRole.noc_default_abuse_contact = codes "RDAP_ROLE_NOC_DEFAULT_ABUSE_CONTACT"
role_string RdapRole.routing = codes "RDAP_ROLE_ROUTING"

unfoldable pub action_string : RdapEventAction → Text
action_string RdapEventAction.action_unknown = codes "RDAP_EVENT_ACTION_UNKNOWN"
action_string RdapEventAction.registration = codes "RDAP_EVENT_ACTION_REGISTRATION"
action_string RdapEventAction.reregistration = codes "RDAP_EVENT_ACTION_REREGISTRATION"
action_string RdapEventAction.last_changed = codes "RDAP_EVENT_ACTION_LAST_CHANGED"
action_string RdapEventAction.expiration = codes "RDAP_EVENT_ACTION_EXPIRATION"
action_string RdapEventAction.deletion = codes "RDAP_EVENT_ACTION_DELETION"
action_string RdapEventAction.reinstantiation = codes "RDAP_EVENT_ACTION_REINSTANTIATION"
action_string RdapEventAction.transfer = codes "RDAP_EVENT_ACTION_TRANSFER"
action_string RdapEventAction.action_locked = codes "RDAP_EVENT_ACTION_LOCKED"
action_string RdapEventAction.unlocked = codes "RDAP_EVENT_ACTION_UNLOCKED"
action_string RdapEventAction.last_update_of_rdap_database =
    codes "RDAP_EVENT_ACTION_LAST_UPDATE_OF_RDAP_DATABASE"
action_string RdapEventAction.registrar_expiration = codes "RDAP_EVENT_ACTION_REGISTRAR_EXPIRATION"
action_string RdapEventAction.enum_validation_expiration =
    codes "RDAP_EVENT_ACTION_ENUM_VALIDATION_EXPIRATION"

unfoldable pub status_string : RdapStatus → Text
status_string RdapStatus.rdap_status_unknown = codes "RDAP_STATUS_UNKNOWN"
status_string RdapStatus.active = codes "RDAP_STATUS_ACTIVE"
status_string RdapStatus.inactive = codes "RDAP_STATUS_INACTIVE"
status_string RdapStatus.validated = codes "RDAP_STATUS_VALIDATED"
status_string RdapStatus.renew_prohibited = codes "RDAP_STATUS_RENEW_PROHIBITED"
status_string RdapStatus.update_prohibited = codes "RDAP_STATUS_UPDATE_PROHIBITED"
status_string RdapStatus.transfer_prohibited = codes "RDAP_STATUS_TRANSFER_PROHIBITED"
status_string RdapStatus.delete_prohibited = codes "RDAP_STATUS_DELETE_PROHIBITED"
status_string RdapStatus.status_proxy = codes "RDAP_STATUS_PROXY"
status_string RdapStatus.private_status = codes "RDAP_STATUS_PRIVATE"
status_string RdapStatus.removed = codes "RDAP_STATUS_REMOVED"
status_string RdapStatus.obscured = codes "RDAP_STATUS_OBSCURED"
status_string RdapStatus.associated = codes "RDAP_STATUS_ASSOCIATED"
status_string RdapStatus.status_locked = codes "RDAP_STATUS_LOCKED"
status_string RdapStatus.pending_create = codes "RDAP_STATUS_PENDING_CREATE"
status_string RdapStatus.pending_renew = codes "RDAP_STATUS_PENDING_RENEW"
status_string RdapStatus.pending_transfer = codes "RDAP_STATUS_PENDING_TRANSFER"
status_string RdapStatus.pending_update = codes "RDAP_STATUS_PENDING_UPDATE"
status_string RdapStatus.pending_delete = codes "RDAP_STATUS_PENDING_DELETE"
status_string RdapStatus.recover_prohibited = codes "RDAP_STATUS_RECOVER_PROHIBITED"

unfoldable pub kind_string : RdapEntityKind → Text
kind_string RdapEntityKind.kind_unknown = codes "RDAP_ENTITY_KIND_UNKNOWN"
kind_string RdapEntityKind.individual = codes "RDAP_ENTITY_KIND_INDIVIDUAL"
kind_string RdapEntityKind.group = codes "RDAP_ENTITY_KIND_GROUP"
kind_string RdapEntityKind.org = codes "RDAP_ENTITY_KIND_ORG"
kind_string RdapEntityKind.location = codes "RDAP_ENTITY_KIND_LOCATION"
kind_string RdapEntityKind.application = codes "RDAP_ENTITY_KIND_APPLICATION"

unfoldable pub class_string : InterfaceClass → Text
class_string InterfaceClass.unknown = codes "INTERFACE_CLASS_UNKNOWN"
class_string InterfaceClass.loopback = codes "INTERFACE_CLASS_LOOPBACK"
class_string InterfaceClass.ethernet = codes "INTERFACE_CLASS_ETHERNET"
class_string InterfaceClass.wireless = codes "INTERFACE_CLASS_WIRELESS"
class_string InterfaceClass.tunnel = codes "INTERFACE_CLASS_TUNNEL"
class_string InterfaceClass.virtual = codes "INTERFACE_CLASS_VIRTUAL"
class_string (InterfaceClass.unrecognized n) = decimal (6 + n)
