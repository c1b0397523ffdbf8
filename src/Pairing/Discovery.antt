-- ===== src/Pairing/Discovery.antt =====
-- pairing/discovery.rs: the hosts that answer on the local network. The responses that arrive before the
-- deadline are a list; the library for mDNS and the clock are not modelled.
use backr.Base.{
  Bool-eq, Result-cases, All-lines, lines-lack_newline, ap₂, trim_idem, trim-strip_cr,
  strip_cr_of_lacks, All-trim, All-trim_start_by, All-trim_end_by, lines-append, lines_line,
  map-trim-lines-finish, strip_prefix, splitn_from, splitn, ends_with_char, split-nil,
  split-cons_sep, ltb, leb, ◌==◌, if◌then◌else◌, ==_iff, ==_self, Bool-cases, Option-cases, length,
  take, head?, any, filter, length-append, length-filter, filter-append, All, All-append,
  All-append_iff, All-map, All-filter, Text, codes, eq_text, is_empty, contains_char, starts_with,
  contains, is_whitespace, trim_start_by, trim_end_by, trim, split_from, split, join, replace_char,
  strip_cr, lines_from, lines, is_digit, digits_from, parse_uint, eq_text→≡, eq_text_self,
  eq_text_iff, contains_char-eq-false_iff, split_from-append, split-append, split_from_of_lacks,
  trim_end_by_parts, trim_start_by_parts, trim_start_by-cons, trim_end_by-concat, is_empty-concat,
  ne_of_eq_text, eq_text_of_ne, ne_nil_of_is_empty, is_empty_of_ne_nil, Result, ok, err, map_err,
  ok_or, to_option, >>=-eq-ok, ℕ, zero, suc, ◌+◌, ◌-◌, ◌*◌, ◌/◌, ◌%◌, ◌^◌, ◌≤◌, ◌<◌, String, ◌≡◌,
  refl, sym, ap, ◌∙◌, subst, ◌≢◌, ◌↔◌, ◌⊎◌, inl, inr, Bool, true, false, ◌&&◌, ◌||◌, not, Option,
  none, some, List, [], ◌∷◌, ◌++◌, map, reverse, append-nil, append_assoc, map-append,
  reverse-append, arith,
}
use backr.Backup.Cache.{port_text}
pub mod Preferred

-- an address as it is printed
pub data IpAddr : Type 0 where
  ipv4 : Text → IpAddr
  ipv6 : Text → IpAddr

-- the parts of `ServiceInfo` that are read, the addresses in the order of their set
pub record ServiceInfo : Type 0 where
  pub addresses : List IpAddr
  pub port : ℕ
  pub property : Option Text
  pub full_hostname : Text

pub data ServiceEvent : Type 0 where
  resolved : ServiceInfo → ServiceEvent
  other : ServiceEvent
  disconnected : ServiceEvent

pub record DiscoveredHost : Type 0 where
  pub hostname : Text
  pub address : Text

abbrev pub is_ipv4 : IpAddr → Bool
is_ipv4 (ipv4 _) = true
is_ipv4 (ipv6 _) = false

abbrev pub ip_text : IpAddr → Text
ip_text (ipv4 t) = t
ip_text (ipv6 t) = t

-- the first of the addresses that is IPv4, else the first
unfoldable pub best : List IpAddr → Option IpAddr
best addrs = elim (head? (filter is_ipv4 addrs)) [ none ↦ head? addrs | some a ↦ some a ]

unfoldable pub hostname_of : ServiceInfo → Text
hostname_of info = elim info.property [
  | none ↦ trim_end_by (λ c. c == b'.') info.full_hostname
  | some h ↦ h
]

abbrev pub address_of : IpAddr → ℕ → Text
address_of addr port = ip_text addr ++ (b':' ∷ port_text port)

-- `hosts.iter_mut().find(…)`, and the push where there is none
unfoldable pub add_host : Bool → Text → Text → List DiscoveredHost → List DiscoveredHost
add_host v4 hostname address [] = record { hostname = hostname; address = address } ∷ []
add_host v4 hostname address (h ∷ hosts) =
    let rest = add_host v4 hostname address hosts in
    if eq_text h.hostname hostname
    then (if v4 then record h { address = address } ∷ hosts else h ∷ hosts)
    else h ∷ rest

-- one response
unfoldable pub on_resolved : ServiceInfo → List DiscoveredHost → List DiscoveredHost
on_resolved info hosts = elim (best info.addresses) [
  | none ↦ hosts
  | some addr ↦ add_host (is_ipv4 addr) (hostname_of info) (address_of addr info.port) hosts
]

-- The loop over the events, from the hosts found so far.
unfoldable pub browse : List ServiceEvent → List DiscoveredHost → List DiscoveredHost
browse [] hosts = hosts
browse (resolved info ∷ events) hosts = browse events (on_resolved info hosts)
browse (other ∷ events) hosts = browse events hosts
browse (disconnected ∷ _) hosts = hosts

abbrev pub discover_hosts : List ServiceEvent → List DiscoveredHost
discover_hosts events = browse events []
