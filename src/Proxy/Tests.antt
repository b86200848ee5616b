-- ===== src/Proxy/Tests.antt =====
-- A proxy for one host with two addresses.
use aws_nitro_enclaves_cli.Common.{
  ℕ, ◌≤◌, ◌<◌, ◌≡◌, refl, ◌↔◌, true, false, none, some, List, [], ◌∷◌, ◌++◌, length,
}
use aws_nitro_enclaves_cli.Common.Int.{pos}
use aws_nitro_enclaves_cli.Wire.{Sink, write_all}
use aws_nitro_enclaves_cli.Proxy.{done}
use aws_nitro_enclaves_cli.Proxy.Dns.{v4, v6, v6_only, DnsResolutionInfo, Resolver, resolve_single}
use aws_nitro_enclaves_cli.Proxy.Allowlist.{
  Service, Document, ConfigFile, documents, check_allowlist, check_allowlist_iff, IsListed,
}
use aws_nitro_enclaves_cli.Proxy.Relay.{
  Source, Relay, buff_size, read, bytes_of, transfer, transfer-connected,
}

-- Every name has the IPv6 address 6 and the IPv4 address 4, for 60 seconds from time 1000.
abbrev two_addresses : Resolver
two_addresses = record {
  domain_to_ascii = λ addr. some addr;
  from_system_conf = true;
  lookup_ip = λ addr. some (
      record { rdata = some (some (v6 6)); ttl = 60; now = 1000 }
      ∷ record { rdata = none; ttl = 60; now = 1000 }
      ∷ record { rdata = some (some (v4 4)); ttl = 60; now = 1000 }
      ∷ []);
}

abbrev old_info : DnsResolutionInfo
old_info = record { ip_addr = v4 9; ttl = 60; last_dns_resolution_time = 900 }

abbrev new_info : DnsResolutionInfo
new_info = record { ip_addr = v4 4; ttl = 60; last_dns_resolution_time = 1000 }

-- "h"
abbrev host : List ℕ
host = b'h' ∷ []

abbrev config : ConfigFile
config =
    documents (
      record { allowlist = some (record { address = some host; port = some (pos 443) } ∷ []) } ∷ [])

check_allowlist_iff_example :
    (check_allowlist two_addresses host 443 v6_only (some config) ≡ done (v6 6)) ↔ (
      (doc : Document) × (docs : List Document) × (services : List Service)
      × (info : DnsResolutionInfo) × (some config ≡ some (documents (doc ∷ docs)))
      × (doc.allowlist ≡ some services)
      × (resolve_single two_addresses host v6_only ≡ done info)
      × (v6 6 ≡ info.ip_addr)
      × IsListed two_addresses host 443 v6_only services)
check_allowlist_iff_example =
    check_allowlist_iff two_addresses host 443 v6_only (some config) (v6 6)

abbrev open_sink : Sink
open_sink = record { written = []; limit = 100 }

abbrev sender : Source
sender = some (1 ∷ 2 ∷ []) ∷ []

transfer-connected_example :
    (chunk : List ℕ) × ((transfer sender open_sink).2.written ≡ [] ++ chunk)
    × (bytes_of sender ≡ chunk ++ bytes_of (transfer sender open_sink).1)
    × (0 < length chunk)
    × (length chunk ≤ buff_size)
unfolding transfer read write_all
transfer-connected_example = transfer-connected sender open_sink refl

-- The client has closed its end, and the server sends.
abbrev half_closed : Relay
half_closed = record {
  client_in = [];
  client_out = open_sink;
  server_in = sender;
  server_out = open_sink;
  disconnected = false;
}
