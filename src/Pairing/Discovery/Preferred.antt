-- ===== src/Pairing/Discovery/Preferred.antt =====
-- Which address a host is listed with.
use backr.Base.{
  if◌then◌else◌, Bool-cases, Option-cases, head?, filter, Text, eq_text, eq_text→≡, eq_text_self,
  ne_of_eq_text, eq_text_of_ne, ℕ, suc, ◌≤◌, ◌≡◌, refl, sym, ap, ◌∙◌, subst, inl, inr, Bool, true,
  false, Option, none, some, List, [], ◌∷◌, ◌++◌, ◌≢◌, arith,
}
use backr.Backup.Cache.{port_text}
use backr.Pairing.Discovery.{
  IpAddr, ipv4, ipv6, ip_text, ServiceEvent, resolved, other, disconnected, DiscoveredHost, is_ipv4,
  best, hostname_of, address_of, add_host, on_resolved, browse, discover_hosts,
}

-- what the events before the end say of one host: whether the address is IPv4, and the address
pub record Sighting : Type 0 where
  pub v4 : Bool
  pub address : Text

-- the first IPv4 address of some addresses
pub first_v4 : List IpAddr → Option Text
first_v4 [] = none
first_v4 (ipv4 text ∷ addrs) = some text
first_v4 (ipv6 _ ∷ addrs) = first_v4 addrs

-- The address that a response counts for, and whether it is IPv4: its first IPv4 address, or, where it has
-- none, its first address.
pub counted : List IpAddr → Option (Bool × Text)
counted addrs = elim (first_v4 addrs) [
  | some text ↦ some (true, text)
  | none ↦ elim addrs [ [] ↦ none | a ∷ _ ↦ some (false, ip_text a) ]
]

best-v4 :
    (addrs : List IpAddr) (text : Text) → first_v4 addrs ≡ some text → best addrs ≡ some (ipv4 text)
unfolding best first_v4
best-v4 [] text h = cc
best-v4 (ipv4 t ∷ addrs) text h = cc
best-v4 (ipv6 t ∷ addrs) text h =
    let q = best-v4 addrs text h in
    elim (Option-cases (head? (filter is_ipv4 addrs))) [
      | inr (a, found) ↦ rw (best, found) (let p = rw (best, found) at q in p)
      | inl nothing ↦ absurd (lacks addrs text h nothing)
    ]
  where
    lacks :
        (addrs : List IpAddr) (text : Text)
        → first_v4 addrs ≡ some text
        → head? (filter is_ipv4 addrs) ≢ none
    lacks [] text h k = cc
    lacks (ipv4 t ∷ addrs) text h k = cc
    lacks (ipv6 t ∷ addrs) text h k = lacks addrs text h k

none_v4 : (addrs : List IpAddr) → first_v4 addrs ≡ none → head? (filter is_ipv4 addrs) ≡ none
unfolding first_v4
none_v4 [] h = refl
none_v4 (ipv4 t ∷ addrs) h = cc
none_v4 (ipv6 t ∷ addrs) h = none_v4 addrs h

-- The code's choice is the address that counts.
best-counted :
    (addrs : List IpAddr)
    → counted addrs ≡ (elim (best addrs) [ none ↦ none | some a ↦ some (is_ipv4 a, ip_text a) ])
unfolding best counted first_v4
best-counted [] = refl
best-counted (ipv4 t ∷ addrs) = refl
best-counted (ipv6 t ∷ addrs) = elim (Option-cases (first_v4 addrs)) [
  | inr (text, found) ↦ rw (counted, found, best-v4 (ipv6 t ∷ addrs) text found) refl
  | inl nothing ↦ rw (counted, nothing, best, none_v4 addrs nothing) refl
]

pub sightings : Text → List ServiceEvent → List Sighting
sightings name [] = []
sightings name (resolved info ∷ events) =
    let rest = sightings name events in
    elim (counted info.addresses) [
      | none ↦ rest
      | some (v4, text) ↦
          if eq_text (hostname_of info) name
          then record { v4 = v4; address = text ++ (b':' ∷ port_text info.port) } ∷ rest
          else rest
    ]
sightings name (other ∷ events) = sightings name events
sightings name (disconnected ∷ _) = []

abbrev last? : List Sighting → Option Sighting
last? [] = none
last? (s ∷ []) = some s
last? (s ∷ (t ∷ l)) = last? (t ∷ l)

abbrev address? : Option Sighting → Option Text
address? none = none
address? (some s) = some s.address

-- the last address that is IPv4, else the first address
pub preferred : List Sighting → Option Text
preferred l = elim (last? (filter (λ s. s.v4) l)) [
  | none ↦ address? (head? l)
  | some s ↦ some s.address
]

-- the address that a host is listed with
pub listed_at : Text → List DiscoveredHost → Option Text
listed_at name [] = none
listed_at name (h ∷ hosts) =
    let rest = listed_at name hosts in if eq_text h.hostname name then some h.address else rest

-- what one more sighting makes of an address
refined : Option Text → Sighting → Option Text
refined none s = some s.address
refined (some a) s = if s.v4 then some s.address else some a

refined_all : Option Text → List Sighting → Option Text
refined_all o [] = o
refined_all o (s ∷ l) = refined_all (refined o s) l

add_host_self :
    (s : Sighting) (name : Text) (hosts : List DiscoveredHost)
    → listed_at name (add_host s.v4 name s.address hosts) ≡ refined (listed_at name hosts) s
unfolding add_host listed_at refined
add_host_self s name [] = rw (listed_at, eq_text_self name) refl
add_host_self s name (h ∷ hosts) = elim (Bool-cases (eq_text h.hostname name)) [
  | inl same ↦ elim (Bool-cases s.v4) [
    | inl v ↦ rw (add_host, same, v, listed_at, same) refl
    | inr v ↦ rw (add_host, same, v, listed_at, same) refl
  ]
  | inr differs ↦ rw (add_host, differs, listed_at, differs) (add_host_self s name hosts)
]

add_host_named :
    (s : Sighting) (host name : Text) (hosts : List DiscoveredHost)
    → eq_text host name ≡ true
    → listed_at name (add_host s.v4 host s.address hosts) ≡ refined (listed_at name hosts) s
add_host_named s host name hosts same =
    subst (λ n. listed_at name (add_host s.v4 n s.address hosts) ≡ refined (listed_at name hosts) s)
      (sym (eq_text→≡ host name same)) (add_host_self s name hosts)

add_host_other :
    (v4 : Bool) (host name address : Text) (hosts : List DiscoveredHost)
    → eq_text host name ≡ false
    → listed_at name (add_host v4 host address hosts) ≡ listed_at name hosts
unfolding add_host listed_at
add_host_other v4 host name address [] differs = rw (listed_at, differs) refl
add_host_other v4 host name address (h ∷ hosts) differs =
    elim (Bool-cases (eq_text h.hostname host)) [
      | inl same ↦
          let away = ap (λ t. eq_text t name) (eq_text→≡ h.hostname host same) ∙ differs in
          elim (Bool-cases v4) [
            | inl v ↦ rw (add_host, same, v, listed_at, away) refl
            | inr v ↦ rw (add_host, same, v, listed_at, away) refl
          ]
      | inr apart ↦ elim (Bool-cases (eq_text h.hostname name)) [
        | inl here ↦ rw (add_host, apart, listed_at, here) refl
        | inr there ↦
            rw (add_host, apart, listed_at, there)
              (add_host_other v4 host name address hosts differs)
      ]
    ]

browse-refined :
    (name : Text) (events : List ServiceEvent) (hosts : List DiscoveredHost)
    → listed_at name (browse events hosts)
      ≡ refined_all (listed_at name hosts) (sightings name events)
unfolding browse sightings on_resolved refined_all
browse-refined name [] hosts = refl
browse-refined name (other ∷ events) hosts = browse-refined name events hosts
browse-refined name (disconnected ∷ events) hosts = refl
browse-refined name (resolved info ∷ events) hosts = elim (Option-cases (best info.addresses)) [
  | inl nothing ↦
      let uncounted : counted info.addresses ≡ none =
        best-counted info.addresses ∙ rw (nothing) refl in
      rw (browse, on_resolved, sightings, nothing, uncounted) (browse-refined name events hosts)
  | inr (addr, found) ↦
      let chosen : counted info.addresses ≡ some (is_ipv4 addr, ip_text addr) =
        best-counted info.addresses ∙ rw (found) refl in
      elim (Bool-cases (eq_text (hostname_of info) name)) [
        | inl same ↦
            rw (browse, on_resolved, sightings, found, chosen, same)
              (browse-refined name events _
                ∙ ap (λ o. refined_all o (sightings name events))
                    (add_host_named
                      (record { v4 = is_ipv4 addr; address = address_of addr info.port })
                      (hostname_of info) name hosts same))
        | inr differs ↦
            rw (browse, on_resolved, sightings, found, chosen, differs)
              (browse-refined name events _
                ∙ ap (λ o. refined_all o (sightings name events))
                    (add_host_other (is_ipv4 addr) (hostname_of info) name
                      (address_of addr info.port) hosts differs))
      ]
]

last-some : (s : Sighting) (l : List Sighting) → (t : Sighting) × (last? (s ∷ l) ≡ some t)
last-some s [] = (s, refl)
last-some s (t ∷ l) = last-some t l

address_or : Option Text → Option Sighting → Option Text
address_or o none = o
address_or o (some s) = some s.address

last-cons :
    (s : Sighting) (l : List Sighting) (o : Option Text)
    → address_or o (last? (s ∷ l)) ≡ address_or (some s.address) (last? l)
unfolding address_or
last-cons s [] o = refl
last-cons s (t ∷ l) o = let (u, e) = last-some t l in rw (e) refl

refined_all-some :
    (a : Text) (l : List Sighting)
    → refined_all (some a) l ≡ address_or (some a) (last? (filter (λ s. s.v4) l))
unfolding refined_all refined address_or
refined_all-some a [] = refl
refined_all-some a (s ∷ l) = elim (Bool-cases s.v4) [
  | inl v ↦
      simp (refined_all, refined, v)
        (refined_all-some s.address l ∙ sym (last-cons s (filter (λ x. x.v4) l) (some a)))
  | inr v ↦ rw (refined_all, refined, v) (refined_all-some a l)
]

preferred-or :
    (l : List Sighting)
    → preferred l ≡ address_or (address? (head? l)) (last? (filter (λ s. s.v4) l))
unfolding preferred address_or
preferred-or l = elim (Option-cases (last? (filter (λ s. s.v4) l))) [
  | inl nothing ↦ rw (preferred, nothing) refl
  | inr (s, found) ↦ rw (preferred, found) refl
]

refined_all-preferred : (l : List Sighting) → refined_all none l ≡ preferred l
unfolding refined_all refined preferred
refined_all-preferred [] = refl
refined_all-preferred (s ∷ l) = refined_all-some s.address l ∙ (go ∙ sym (preferred-or (s ∷ l)))
  where
    go :
        address_or (some s.address) (last? (filter (λ x. x.v4) l))
        ≡ address_or (some s.address) (last? (filter (λ x. x.v4) (s ∷ l)))
    go = elim (Bool-cases s.v4) [
      | inl v ↦ simp v (sym (last-cons s (filter (λ x. x.v4) l) (some s.address)))
      | inr v ↦ rw (v) refl
    ]

-- how often a name is listed
pub times_listed : Text → List DiscoveredHost → ℕ
times_listed name [] = 0
times_listed name (h ∷ hosts) =
    let rest = times_listed name hosts in if eq_text h.hostname name then suc rest else rest

eq_text_comm : (s t : Text) → eq_text s t ≡ false → eq_text t s ≡ false
eq_text_comm s t h = eq_text_of_ne t s (λ e. ne_of_eq_text s t h (sym e))

add_host_elsewhere :
    (v4 : Bool) (host name address : Text) (hosts : List DiscoveredHost)
    → eq_text name host ≡ false
    → times_listed name (add_host v4 host address hosts) ≡ times_listed name hosts
unfolding add_host times_listed
add_host_elsewhere v4 host name address [] h = rw (eq_text_comm name host h) refl
add_host_elsewhere v4 host name address (x ∷ hosts) h =
    elim (Bool-cases (eq_text x.hostname host)) [
      | inl same ↦ elim (Bool-cases v4) [
        | inl v ↦ rw (add_host, same, v) refl
        | inr v ↦ rw (add_host, same, v) refl
      ]
      | inr apart ↦
          rw (add_host, apart, times_listed)
            (rw (add_host_elsewhere v4 host name address hosts h) refl)
    ]

add_host_once :
    (v4 : Bool) (host name address : Text) (hosts : List DiscoveredHost)
    → times_listed name hosts ≤ 1
    → times_listed name (add_host v4 host address hosts) ≤ 1
unfolding add_host times_listed
add_host_once v4 host name address [] h = ground arith
add_host_once v4 host name address (x ∷ hosts) h = elim (Bool-cases (eq_text x.hostname host)) [
  | inl same ↦ elim (Bool-cases v4) [
    | inl v ↦ rw (add_host, same, v) h
    | inr v ↦ rw (add_host, same, v) h
  ]
  | inr apart ↦ elim (Bool-cases (eq_text x.hostname name)) [
    | inl here ↦
        rw (add_host, apart, times_listed, here)
          (subst (λ n. suc n ≤ 1)
            (sym (
              add_host_elsewhere v4 host name address hosts
                (ap (λ t. eq_text t host) (sym (eq_text→≡ x.hostname name here)) ∙ apart)))
            (let q = rw (times_listed, here) at h in q))
    | inr there ↦
        rw (add_host, apart, times_listed, there)
          (add_host_once v4 host name address hosts (let q = rw (times_listed, there) at h in q))
  ]
]

browse_once :
    (name : Text) (events : List ServiceEvent) (hosts : List DiscoveredHost)
    → times_listed name hosts ≤ 1
    → times_listed name (browse events hosts) ≤ 1
unfolding browse on_resolved
browse_once name [] hosts h = h
browse_once name (other ∷ events) hosts h = browse_once name events hosts h
browse_once name (disconnected ∷ events) hosts h = h
browse_once name (resolved info ∷ events) hosts h = elim (Option-cases (best info.addresses)) [
  | inl nothing ↦ rw (browse, on_resolved, nothing) (browse_once name events hosts h)
  | inr (addr, found) ↦
      rw (browse, on_resolved, found)
        (browse_once name events _ (
          add_host_once (is_ipv4 addr) (hostname_of info) name (address_of addr info.port) hosts h))
]

-- Each name that answers before the end is listed once, with the first IPv4 address of its last answer
-- that has one, or with the first address of its first answer with an address if none has, and no other
-- name is listed.
pub discover_hosts-preferred :
    (name : Text) (events : List ServiceEvent)
    → (listed_at name (discover_hosts events) ≡ preferred (sightings name events))
      × (times_listed name (discover_hosts events) ≤ 1)
unfolding listed_at times_listed
discover_hosts-preferred name events = (
  browse-refined name events [] ∙ refined_all-preferred (sightings name events),
  browse_once name events [] (omega arith),
)
