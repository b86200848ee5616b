-- ===== src/Proxy/Dns.antt =====
-- vsock_proxy/src/dns.rs: the resolution of a host name, and its cache in `Proxy::sock_accept`.
use aws_nitro_enclaves_cli.Common.{
  ℕ, ◌+◌, ◌≤◌, ◌≡◌, ◌≢◌, ◌⊎◌, inl, inr, Bool, true, false, Option, none, some, List, [], ◌∷◌, arith,
  ltb, if◌then◌else◌, Bool-cases, All,
}
use aws_nitro_enclaves_cli.Proxy.{
  ProxyError, VsockProxyResult, done, failed, ◌>>=◌, >>=-eq-done, or_fail, bad_domain, no_resolver,
  lookup_failed, no_addresses, no_accepted_ip, unresolved, resolution_failed,
}

pub data IpAddr : Type 0 where
  v4 v6 : ℕ → IpAddr

abbrev pub is_ipv4 : IpAddr → Bool
is_ipv4 (v4 _) = true
is_ipv4 (v6 _) = false

pub data IpAddrType : Type 0 where
  v4_only v6_only mixed : IpAddrType

pub record DnsResolutionInfo : Type 0 where
  pub ip_addr : IpAddr
  pub ttl : ℕ
  pub last_dns_resolution_time : ℕ

unfoldable pub is_expired : ℕ → DnsResolutionInfo → Bool
is_expired now info = ltb (info.last_dns_resolution_time + info.ttl) now

-- A record of a lookup: its data, if it has any, are an address or something else; with its time to
-- live and the time at which the program looks at it.
pub record LookupRecord : Type 0 where
  pub rdata : Option (Option IpAddr)
  pub ttl : ℕ
  pub now : ℕ

-- The libraries for domain names and for DNS.
pub record Resolver : Type 0 where
  pub domain_to_ascii : List ℕ → Option (List ℕ)
  pub from_system_conf : Bool
  pub lookup_ip : List ℕ → Option (List LookupRecord)

-- The body of `filter_map`, in front of the results of the records that follow.
abbrev keep :
    LookupRecord → Option (Option IpAddr) → List DnsResolutionInfo → List DnsResolutionInfo
keep r (some (some addr)) rest =
    record { ip_addr = addr; ttl = r.ttl; last_dns_resolution_time = r.now } ∷ rest
keep r _ rest = rest

unfoldable pub results : List LookupRecord → List DnsResolutionInfo
results [] = []
results (r ∷ rs) = keep r r.rdata (results rs)

-- One half of `partition`.
unfoldable pub of_family : Bool → List DnsResolutionInfo → List DnsResolutionInfo
of_family ipv4 [] = []
of_family ipv4 (info ∷ infos) =
    let rest = of_family ipv4 infos in
    if is_ipv4 info.ip_addr
    then (if ipv4 then info ∷ rest else rest)
    else if ipv4
    then rest
    else info ∷ rest

abbrev nonempty_or : ProxyError → List DnsResolutionInfo → VsockProxyResult (List DnsResolutionInfo)
nonempty_or e [] = failed e
nonempty_or e (info ∷ infos) = done (info ∷ infos)

abbrev accept : IpAddrType → List DnsResolutionInfo → VsockProxyResult (List DnsResolutionInfo)
accept mixed rresults = done rresults
accept v4_only rresults = nonempty_or no_accepted_ip (of_family true rresults)
accept v6_only rresults = nonempty_or no_accepted_ip (of_family false rresults)

abbrev configured : Bool → VsockProxyResult (Unit {0})
configured true = done tt
configured false = failed no_resolver

module _ (R : Resolver) where
  unfoldable pub resolve : List ℕ → IpAddrType → VsockProxyResult (List DnsResolutionInfo)
  unfolding results of_family
  resolve addr ip_addr_type = do
    ascii ← or_fail bad_domain (R.domain_to_ascii addr)
    resolver ← configured R.from_system_conf
    records ← or_fail lookup_failed (R.lookup_ip ascii)
    rresults ← nonempty_or no_addresses (results records)
    accept ip_addr_type rresults

  abbrev first_of : List DnsResolutionInfo → VsockProxyResult DnsResolutionInfo
  first_of [] = failed unresolved
  first_of (info ∷ infos) = done info

  unfoldable pub resolve_single : List ℕ → IpAddrType → VsockProxyResult DnsResolutionInfo
  resolve_single addr ip_addr_type = do rresults ← resolve addr ip_addr_type; first_of rresults

  abbrev expired : ℕ → Option DnsResolutionInfo → Bool
  expired now none = true
  expired now (some info) = is_expired now info

  -- `self.dns_resolution_info.ok_or(…)`
  abbrev cached : Option DnsResolutionInfo → VsockProxyResult (IpAddr × Option DnsResolutionInfo)
  cached none = failed resolution_failed
  cached (some info) = done (info.ip_addr, some info)

  -- The address that `sock_accept` connects to at the time `now`, and the cache after it.
  unfoldable pub remote_addr :
      ℕ
      → List ℕ
      → IpAddrType
      → Option DnsResolutionInfo
      → VsockProxyResult (IpAddr × Option DnsResolutionInfo)
  remote_addr now remote_host ip_addr_type cache =
      if expired now cache
      then (do
        dns_resolution ← resolve_single remote_host ip_addr_type
        done (dns_resolution.ip_addr, some dns_resolution))
      else cached cache

  -- The family that a restriction asks for.
  abbrev pub IsAccepted : IpAddrType → DnsResolutionInfo → Type 0
  IsAccepted v4_only info = is_ipv4 info.ip_addr ≡ true
  IsAccepted v6_only info = is_ipv4 info.ip_addr ≡ false
  IsAccepted mixed info = Unit

  nonempty_or-eq-done :
      (e : ProxyError) (kept infos : List DnsResolutionInfo)
      → nonempty_or e kept ≡ done infos
      → (infos ≡ kept) × (infos ≢ [])
  nonempty_or-eq-done e [] infos h = cc
  nonempty_or-eq-done e (k ∷ ks) infos h = ground arith

  of_family-All :
      (ipv4 : Bool) (infos : List DnsResolutionInfo)
      → All (λ info. is_ipv4 info.ip_addr ≡ ipv4) (of_family ipv4 infos)
  unfolding of_family
  of_family-All ipv4 [] = tt
  of_family-All ipv4 (info ∷ infos) = ground (arith, of_family-All ipv4 infos)

  mixed-All : (infos : List DnsResolutionInfo) → All (IsAccepted mixed) infos
  mixed-All [] = tt
  mixed-All (info ∷ infos) = (tt, mixed-All infos)

  accept-All :
      (ip_addr_type : IpAddrType) (rresults infos : List DnsResolutionInfo)
      → accept ip_addr_type rresults ≡ done infos
      → All (IsAccepted ip_addr_type) infos
  accept-All mixed rresults infos h = mixed-All infos
  accept-All v4_only rresults infos h =
      rw (nonempty_or-eq-done no_accepted_ip (of_family true rresults) infos h).0
        (of_family-All true rresults)
  accept-All v6_only rresults infos h =
      rw (nonempty_or-eq-done no_accepted_ip (of_family false rresults) infos h).0
        (of_family-All false rresults)

  accept-ne-nil :
      (ip_addr_type : IpAddrType) (rresults infos : List DnsResolutionInfo)
      → rresults ≢ []
      → accept ip_addr_type rresults ≡ done infos
      → infos ≢ []
  accept-ne-nil mixed rresults infos some_ip h = ground arith
  accept-ne-nil v4_only rresults infos some_ip h =
      (nonempty_or-eq-done no_accepted_ip (of_family true rresults) infos h).1
  accept-ne-nil v6_only rresults infos some_ip h =
      (nonempty_or-eq-done no_accepted_ip (of_family false rresults) infos h).1

  -- Where the resolution of a host succeeds, there are addresses, and each is of the family that
  -- the restriction asks for.
  resolve-IsAccepted :
      (addr : List ℕ) (ip_addr_type : IpAddrType) (infos : List DnsResolutionInfo)
      → resolve addr ip_addr_type ≡ done infos
      → (infos ≢ []) × All (IsAccepted ip_addr_type) infos
  unfolding resolve
  resolve-IsAccepted addr ip_addr_type infos h =
      let (ascii, _, h₁) = >>=-eq-done _ infos (or_fail bad_domain (R.domain_to_ascii addr)) h in
      let (_, _, h₂) = >>=-eq-done _ infos (configured R.from_system_conf) h₁ in
      let (records, _, h₃) = >>=-eq-done _ infos (or_fail lookup_failed (R.lookup_ip ascii)) h₂ in
      let (rresults, e, h₄) = >>=-eq-done _ infos (nonempty_or no_addresses (results records)) h₃ in
      let (same, some_ip) = nonempty_or-eq-done no_addresses (results records) rresults e in
      (
        accept-ne-nil ip_addr_type rresults infos some_ip h₄,
        accept-All ip_addr_type rresults infos h₄,
      )

  -- The proxy connects to an address whose time to live is not over, from the cache, which then
  -- stays as it is, or else to the one that a new resolution gives, which is then the cache.
  remote_addr_lem :
      (now : ℕ) (host : List ℕ) (ip_addr_type : IpAddrType) (cache after : Option DnsResolutionInfo)
      (ip : IpAddr)
      → remote_addr now host ip_addr_type cache ≡ done (ip, after)
      → (info : DnsResolutionInfo) × (after ≡ some info)
        × (ip ≡ info.ip_addr)
        × ((cache ≡ some info) × (now ≤ info.last_dns_resolution_time + info.ttl)
            ⊎ (resolve_single host ip_addr_type ≡ done info))
  unfolding remote_addr is_expired
  remote_addr_lem now host ip_addr_type none after ip h =
      let (info, e, h') = >>=-eq-done _ (ip, after) (resolve_single host ip_addr_type) h in
      (info, ground arith, ground arith, inr e)
  remote_addr_lem now host ip_addr_type (some info) after ip h =
      elim (Bool-cases (is_expired now info)) [
        | inl over ↦
            let (fresh, e, h') =
              >>=-eq-done _ (ip, after) (resolve_single host ip_addr_type) (rw over at h) in
            (fresh, ground arith, ground arith, inr e)
        | inr valid ↦ (info, ground arith, ground arith, inl (ground arith))
      ]
