-- ===== src/Proxy/Allowlist.antt =====
-- vsock_proxy/src/proxy.rs: `check_allowlist`. The configuration file is given as the system and the
-- YAML library read it.
use aws_nitro_enclaves_cli.Common.{
  ℕ, ◌≡◌, refl, ap, ◌↔◌, ◌⊎◌, inl, inr, Bool, false, Option, none, some, List, [], ◌∷◌, arith, ◌==◌,
  if◌then◌else◌, Bool-cases,
}
use aws_nitro_enclaves_cli.Common.Int.{ℤ}
use aws_nitro_enclaves_cli.Text.{same_text, same_text_iff}
use aws_nitro_enclaves_cli.Proxy.{
  VsockProxyResult, done, failed, ◌>>=◌, >>=-eq-done, or_fail, as_u16, could_not_open,
  could_not_read, bad_yaml, no_allowlist, no_address, no_port, not_allowed, panicked,
}
use aws_nitro_enclaves_cli.Proxy.Dns.{
  IpAddr, v4, v6, IpAddrType, DnsResolutionInfo, Resolver, resolve, resolve_single,
}

-- An entry of the list, with the fields that are there and of the right type.
pub record Service : Type 0 where
  pub address : Option (List ℕ)
  pub port : Option ℤ

-- A document of the file: its list, if it has that field.
pub record Document : Type 0 where
  pub allowlist : Option (List Service)

pub data ConfigFile : Type 0 where
  cannot_open cannot_read malformed : ConfigFile
  documents : List Document → ConfigFile

abbrev same_ip : IpAddr → IpAddr → Bool
same_ip (v4 a) (v4 b) = a == b
same_ip (v6 a) (v6 b) = a == b
same_ip _ _ = false

-- `&docs[0]` panics when the file holds no document.
abbrev load : ConfigFile → VsockProxyResult (List Service)
load cannot_open = failed could_not_open
load cannot_read = failed could_not_read
load malformed = failed bad_yaml
load (documents []) = failed panicked
load (documents (doc ∷ docs)) = or_fail no_allowlist doc.allowlist

-- `rresults.into_iter().flatten().find(…)`
abbrev find_ip : IpAddr → List DnsResolutionInfo → Option IpAddr
find_ip addr [] = none
find_ip addr (info ∷ infos) = if same_ip info.ip_addr addr then some addr else find_ip addr infos

abbrev match_ip : IpAddr → VsockProxyResult (List DnsResolutionInfo) → Option IpAddr
match_ip addr (failed e) = none
match_ip addr (done infos) = find_ip addr infos

load-documents :
    (file : ConfigFile) (services : List Service)
    → load file ≡ done services
    → (doc : Document) × (docs : List Document) × (file ≡ documents (doc ∷ docs))
      × (doc.allowlist ≡ some services)
load-documents cannot_open services h = cc
load-documents cannot_read services h = cc
load-documents malformed services h = cc
load-documents (documents []) services h = cc
load-documents (documents (doc ∷ docs)) services h = (doc, docs, refl, ground arith)

module _ (R : Resolver) (remote_host : List ℕ) (remote_port : ℕ) (ip_addr_type : IpAddrType) where
  -- Both branches only write to the log.
  abbrev after_ip : Option IpAddr → VsockProxyResult IpAddr → VsockProxyResult IpAddr
  after_ip (some addr) rest = rest
  after_ip none rest = rest

  -- The loop over the services.
  unfoldable pub check_services : IpAddr → List Service → VsockProxyResult IpAddr
  check_services remote_addr [] = failed not_allowed
  check_services remote_addr (raw_service ∷ services) =
      let rest = check_services remote_addr services in
      (do
        addr ← or_fail no_address raw_service.address
        port ← or_fail no_port raw_service.port
        (if as_u16 port == remote_port
            then if same_text addr remote_host
              then done remote_addr
              else after_ip (match_ip remote_addr (resolve R addr ip_addr_type)) rest
            else rest))

  abbrev check_config : Option ConfigFile → VsockProxyResult IpAddr
  check_config none = failed not_allowed
  check_config (some file) = do
    services ← load file
    dns_result ← resolve_single R remote_host ip_addr_type
    check_services dns_result.ip_addr services

  unfoldable pub check_allowlist : Option ConfigFile → VsockProxyResult IpAddr
  check_allowlist config_file = check_config config_file

  -- An entry that names the host itself, with its port on 16 bits.
  abbrev pub Names : Service → Type 0
  Names s =
      (s.address ≡ some remote_host)
      × ((port : ℤ) × (s.port ≡ some port) × (as_u16 port ≡ remote_port))

  -- An entry with both fields.
  abbrev pub IsComplete : Service → Type 0
  IsComplete s = ((addr : List ℕ) × (s.address ≡ some addr)) × ((port : ℤ) × (s.port ≡ some port))

  -- Some entry names the host, and those before it are complete.
  abbrev pub IsListed : List Service → Type 0
  IsListed [] = ⊥
  IsListed (s ∷ ss) = Names s ⊎ IsComplete s × IsListed ss

  step_names :
      (ip : IpAddr) (s : Service) (ss : List Service) (addr : List ℕ) (port : ℤ)
      → s.address ≡ some addr
      → s.port ≡ some port
      → check_services ip (s ∷ ss) ≡ (
          if as_u16 port == remote_port
          then if same_text addr remote_host then done ip else check_services ip ss
          else check_services ip ss)
  unfolding check_services
  step_names ip s ss addr port a p = ground arith

  check_services-IsListed :
      (ip result : IpAddr) (ss : List Service)
      → check_services ip ss ≡ done result
      → (result ≡ ip) × IsListed ss
  check_services-IsListed ip result [] h = unfold check_services in cc
  check_services-IsListed ip result (s ∷ ss) h =
      go s.address s.port refl refl (check_services-IsListed ip result ss)
    where
      go :
          (a : Option (List ℕ)) (p : Option ℤ)
          → s.address ≡ a
          → s.port ≡ p
          → (check_services ip ss ≡ done result → (result ≡ ip) × IsListed ss)
          → (result ≡ ip) × IsListed (s ∷ ss)
      go none p ea ep later = absurd (unfold check_services in ground arith)
      go (some addr) none ea ep later = absurd (unfold check_services in ground arith)
      go (some addr) (some port) ea ep later = elim (Bool-cases (as_u16 port == remote_port)) [
        | inl at ↦ elim (Bool-cases (same_text addr remote_host)) [
          | inl same ↦ (
            ground (arith, step_names ip s ss addr port ea ep),
            inl (ground (arith, same_text_iff addr remote_host), (port, ep, ground arith)),
          )
          | inr other ↦
              let (e, listed) = later (ground (arith, step_names ip s ss addr port ea ep)) in
              (e, inr (((addr, ea), (port, ep)), listed))
        ]
        | inr off ↦
            let (e, listed) = later (ground (arith, step_names ip s ss addr port ea ep)) in
            (e, inr (((addr, ea), (port, ep)), listed))
      ]

  IsListed-check_services :
      (ip : IpAddr) (ss : List Service) → IsListed ss → check_services ip ss ≡ done ip
  IsListed-check_services ip [] listed = elim listed [ ]
  IsListed-check_services ip (s ∷ ss) (inl (a, (port, p, e))) =
      ground (arith, step_names ip s ss remote_host port a p, same_text_iff remote_host remote_host)
  IsListed-check_services ip (s ∷ ss) (inr (((addr, a), (port, p)), later)) =
      ground (arith, step_names ip s ss addr port a p, IsListed-check_services ip ss later)

  check_config-listed :
      (file : ConfigFile) (doc : Document) (docs : List Document) (services : List Service)
      (info : DnsResolutionInfo)
      → some file ≡ some (documents (doc ∷ docs))
      → doc.allowlist ≡ some services
      → resolve_single R remote_host ip_addr_type ≡ done info
      → IsListed services
      → check_config (some file) ≡ done info.ip_addr
  check_config-listed (documents (d ∷ ds)) doc docs services info read given resolved listed =
      let same : d.allowlist ≡ doc.allowlist = ground arith in
      rw (same, given, resolved) (IsListed-check_services info.ip_addr services listed)
  check_config-listed _ doc docs services info read given resolved listed = absurd (ground arith)

  -- The proxy may be started for a host and a port, with the address `ip`, exactly if there is a
  -- configuration file that can be read and whose first document has a list, the host resolves to
  -- `ip` first, and some entry of the list has the very name of the host and its port on 16 bits,
  -- with no incomplete entry before it. That an entry resolves to the same address counts for
  -- nothing.
  pub check_allowlist_iff :
      (config_file : Option ConfigFile) (ip : IpAddr)
      → (check_allowlist config_file ≡ done ip) ↔ (
          (doc : Document) × (docs : List Document) × (services : List Service)
          × (info : DnsResolutionInfo) × (config_file ≡ some (documents (doc ∷ docs)))
          × (doc.allowlist ≡ some services)
          × (resolve_single R remote_host ip_addr_type ≡ done info)
          × (ip ≡ info.ip_addr)
          × IsListed services)
  unfolding check_allowlist
  check_allowlist_iff none ip = (λ h. cc, λ (doc, docs, services, info, e, _, _, _, _). cc)
  check_allowlist_iff (some file) ip = (
    λ h.
        let (services, e, h₁) = >>=-eq-done _ ip (load file) h in
        let (info, e₁, h₂) = >>=-eq-done _ ip (resolve_single R remote_host ip_addr_type) h₁ in
        let (same, listed) = check_services-IsListed info.ip_addr ip services h₂ in
        let (doc, docs, read, given) = load-documents file services e in
        (doc, docs, services, info, ap some read, given, e₁, same, listed),
    λ (doc, docs, services, info, read, given, e₁, same, listed).
        rw same (check_config-listed file doc docs services info read given e₁ listed),
  )
