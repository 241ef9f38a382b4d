-- ===== src/Lib.antt =====
-- Verification of proto-ip: IP addresses as messages, the geolocation of addresses from several
-- sources with route-origin validation and registration facts, the listing of local interfaces,
-- and the RDAP bootstrap. The code is in Go; the paths below are from the repository's root.
--
-- Parts
-- - Messages (proto/ippb/*.pb.go): the protobuf messages. A message is a record, a oneof and an
--   enum a data type, a pointer an Option, and `get` a getter, which gives the zero value on nil.
-- - Golang: what the code uses of the language and its library. Texts are lists of byte values
--   (Text), machine words are numbers below a power of two with the conversions written out (Ints),
--   netip.Addr and netip.Prefix are a number with a family and a length (Netip), net.IP is a list
--   of bytes (NetIp), a map an association list (Maps), a bufio.Scanner its lines and its error
--   (Scanner). The grammars of net/netip and strconv are parameters (NetText).
-- - Geoip.Merge (geoip/merge.go): Merge. The loops are `pick_base`, `find? has_asn`,
--   `prefer_admin` and `fill_coordinates`.
-- - Geoip.Rpki (geoip/rpki.go): `add` and `add_all` fill the two maps of an RpkiSet, `validate`
--   probes them with each prefix of the address. Geoip.Rpki.Loading is the loop of parseVRPs
--   over the tokens of the dump.
-- - Geoip.GeofeedCsv (geoip/geofeed_csv.go), Geoip.Iptoasn (geoip/iptoasn.go), Geoip.Ipmap
--   (geoip/ipmap.go), Geoip.Mmdb (geoip/mmdb.go) and Geoip.Anycast (geoip/anycast.go): the data sets,
--   each with its parser, which skips the rows that do not parse, and its lookup.
-- - Geoip.Source (geoip/source.go): granularityFromFields.
-- - Geoip.Wire (geoip/server.go and geoip/geofeed.go): addrFromProto and protoFromAddr.
-- - Geoip.NetInfo (geoip/netinfo.go): the facts about an AS, their cache, buildNetworkInfo.
--   Geoip.NetInfo.Concurrent has the calls of Enrich as steps of goroutines: taking the mutex is a
--   step that waits while it is held, what is done under it and the Unlock at its end are the next
--   one, and the query between the two critical sections is not under it.
-- - Geoip.Disk, Geoip.Loaders (geoip/cache.go, dbip.go, ip2location.go, ipmap.go, iptoasn.go, mmdb.go,
--   rpki.go): how each data file is found and loaded, over a file system that is a parameter.
--   Geoip.Setup (geoip/server.go): NewServer and the With methods as a configuration, and
--   `to_server`, the server of Geoip.Server that it describes.
-- - Geoip.Server (geoip/server.go): the service. A source is a function of an address and a world
--   that it may change; `ask_all` is the loop over the sources, which feeds Geoip.Merge, then
--   Geoip.Anycast flags the response and Geoip.NetInfo adds the network part.
-- - Geoip.Geofeed (geoip/geofeed.go and the cache of geoip/cache.go): the geofeed source. `discover`
--   asks RDAP and whois, `records` the cache and then `fetch`, and Geoip.GeofeedCsv has the match.
-- - Localip (localip/list.go): List, convertInterface, classify, accepts and the two conversions of
--   addresses.
-- - Rdap.Bootstrap (rdap/bootstrap.go): the loaders over the services, Resolve and ResolveASN.
--   Rdap.Bootstrap.Fetching: its requests.
--   Rdap.Wire and Rdap.Client (rdap/client.go): ipFromProto, subnetPrefixLen and the lookups, which
--   take their query as an argument; Rdap.Query is that query, Rdap.Parse, Rdap.Tables and Rdap.Vcard
--   what its answer is read as. Rdap.Server (rdap/server.go): the handlers and RenderCIDR.
-- - Service (service/register.go): the two streaming handlers of the LocalLookup service, over a
--   stream that may fail. Service.Register: Register, which composes the loaders of Geoip into a
--   server; parseVRPs and the bootstrap come with their results.
-- - Cmd.GeoServer (cmd/geo-server/main.go): the same composition by the program. Cmd.Arguments,
--   Cmd.Programs, Cmd.RdapClient, Cmd.GeoClient and Cmd.LocalClient (cmd/rdap-client, cmd/geo-client,
--   cmd/client): the clients, as functions from their arguments and the answers to their requests to
--   the lines that they print and how they end. Both of the first two have the functions of
--   Cmd.Arguments.
-- - Prelude: names of the libraries, tests on numbers, results, lists, the first element that
--   answers and the best one. Tests: sample values, and the theorems at them.
--
-- Bounds and fuel
-- - The loops of parseVRPs run on fuel, one round for each token or element: more fuel than the input
--   is long is enough, if each of them shortens the input.
-- - sort.Search (`search_from`) runs on fuel: an interval of n elements has n + 1 rounds, and each
--   round shrinks it. The loop of Validate runs on the number of prefix lengths that are left,
--   one more than the address has bits. Every other loop is structural.
-- - Halves of an address are 64-bit words; `int64` and `uint64` are their conversions.
-- - The scanners' line limits are those of the source, 1 MiB and 4 MiB.
--
-- Not modelled
-- - JSON, HTTP, whois, the clock, the MMDB reader, bzip2, gRPC and the operating system: their
--   results are parameters. The mutex of the geofeed cache is left out: each of its operations is
--   one step. Log lines are left out.
-- - Under cmd/ the flags, the dialling, the timeouts, the signals and the servers that only register
--   a service. The grammars under lang/ belong to tests.
-- - Geoip.NetInfo.enrich changes its cache and a world; the server only reads what its enrichers
--   give in the world behind the sources.
-- - sort.Slice, which parseIPtoASN calls, is a parameter.
pub mod Prelude
pub mod Golang
pub mod Messages
pub mod Geoip
pub mod Localip
pub mod Rdap
pub mod Service
pub mod Cmd
pub mod Tests
