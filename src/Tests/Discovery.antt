-- ===== src/Tests/Discovery.antt =====
-- A host that answers first with an IPv6 address.
use backr.Base.{codes, eq_text, trim_end_by, ◌≤◌, ◌≡◌, refl, none, List, [], ◌∷◌}
use backr.Pairing.Discovery.{
  IpAddr, ipv4, ipv6, ServiceInfo, ServiceEvent, resolved, other, best, hostname_of, add_host,
  on_resolved, browse, discover_hosts,
}
use backr.Pairing.Discovery.Preferred.{
  sightings, preferred, listed_at, times_listed, discover_hosts-preferred,
}

abbrev nas : List IpAddr → ServiceInfo
nas addrs = record {
  addresses = addrs;
  port = 40000;
  property = none;
  full_hostname = codes "nas.";
}

abbrev events : List ServiceEvent
events =
    resolved (nas (ipv6 (codes "fe80::1") ∷ []))
    ∷ other
    ∷ resolved (nas (ipv6 (codes "fe80::1") ∷ ipv4 (codes "10.0.0.2") ∷ []))
    ∷ []

found :
    discover_hosts events ≡ record { hostname = codes "nas"; address = codes "10.0.0.2:40000" } ∷ []
unfolding browse on_resolved best hostname_of add_host eq_text trim_end_by
    backr.Backup.Restore.decimal
found = refl

discover_hosts-preferred_example :
    (listed_at (codes "nas") (discover_hosts events) ≡ preferred (sightings (codes "nas") events))
    × (times_listed (codes "nas") (discover_hosts events) ≤ 1)
discover_hosts-preferred_example = discover_hosts-preferred (codes "nas") events
