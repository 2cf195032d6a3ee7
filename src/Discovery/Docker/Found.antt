-- ===== src/Discovery/Docker/Found.antt =====
-- pkg/erdiscovery/dockerdiscovery/docker.go: what each container outside of the Swarm's services gives.
use edgerouter.Base.{
  ap, ◌⊎◌, Str, bytes, ◌==◌, eq_iff, ◌≡◌, ◌≢◌, refl, sym, ◌∙◌, subst, inl, inr, true, false, List,
  [], ◌∷◌, ◌++◌, Option, none, some, Result, ok, >>=-eq-ok, ok-injective, All, Any, Each,
  append-nil, append_assoc, Bool-cases, if◌then◌else◌, arith,
}
use edgerouter.Base.Dict.{Dict, lookup}
use edgerouter.Config.Validate.{is_empty}
use edgerouter.Discovery.Service.{Service, or_blank}
use edgerouter.Discovery.Udocker.{ContainerListItem, Daemon}
use edgerouter.Discovery.Docker.{
  coalesce, svcs_contains, host_ip, listed_ip, gwbridge_ip, or_gwbridge, auto_ip, or_in,
  service_of_container, of_named, discover_container, add_found, discover_containers,
}

svcs_contains-false :
    (services : List Service) (name : Str)
    → svcs_contains services name ≡ false
    → All (λ s. s.name ≢ name) services
unfolding svcs_contains
svcs_contains-false [] name h = tt
svcs_contains-false (s ∷ services) name h = elim (Bool-cases (s.name == name)) [
  | inl e ↦ let h' = rw e at h in cc
  | inr e ↦
      ((λ same. ground (arith, eq_iff s.name name)), svcs_contains-false services name (rw e at h))
]

svcs_contains-true :
    (services : List Service) (name : Str)
    → svcs_contains services name ≡ true
    → Any (λ s. s.name ≡ name) services
unfolding svcs_contains
svcs_contains-true [] name h = cc
svcs_contains-true (s ∷ services) name h = elim (Bool-cases (s.name == name)) [
  | inl e ↦ inl ((eq_iff s.name name).0 e)
  | inr e ↦ inr (svcs_contains-true services name (rw e at h))
]

-- The services that were found.
abbrev pub given : List (Option Service) → List Service
given [] = []
given (none ∷ found) = given found
given (some svc ∷ found) = svc ∷ given found

-- The first of the texts that is not empty.
abbrev first_given : List Str → Str
first_given [] = []
first_given ([] ∷ rest) = first_given rest
first_given ((c ∷ s) ∷ rest) = c ∷ s

coalesce-first_given : (texts : List Str) → coalesce texts ≡ first_given texts
unfolding coalesce
coalesce-first_given [] = refl
coalesce-first_given ([] ∷ rest) = coalesce-first_given rest
coalesce-first_given ((c ∷ s) ∷ rest) = refl

-- The address that a container lists: for automatic discovery that of its only network, then that in
-- the network that is asked for, then that in the bridge.
abbrev pub only_address : Dict Str → Str
only_address ((name, ip) ∷ []) = ip
only_address networks = []

abbrev pub listed_address : Str → Dict Str → Str
listed_address network_name networks = first_given (
    (if network_name == bytes "_auto_" then only_address networks else [])
    ∷ or_blank (lookup network_name networks)
    ∷ or_blank (lookup (bytes "bridge") networks)
    ∷ [])

abbrev pub name_of : ContainerListItem → Str → Str
name_of container name0 = first_given (
    or_blank (lookup (bytes "com.docker.compose.project") container.labels)
    ∷ or_blank (lookup (bytes "com.docker.swarm.service.name") container.labels)
    ∷ name0
    ∷ [])

module _ (parse_cidr : Str → Result Str) where
  -- The address of a container: the one that it lists; else, in the host's network, the local one, but
  -- none if that network gives an address; else the one in docker_gwbridge, if there is one.
  pub record HasAddress (daemon : Daemon) (network_name : Str) (container : ContainerListItem)
      (ip : Option Str) : Type 0 where
    pub listed : Str
    pub is_listed : listed ≡ listed_address network_name container.networks
    pub from :
        ((listed ≢ []) × (ip ≡ some listed))
        ⊎ ((listed ≡ [])
            × (lookup (bytes "host") container.networks ≡ some [])
            × (ip ≡ some (bytes "127.0.0.1")))
        ⊎ ((listed ≡ [])
            × ((address : Str) × (lookup (bytes "host") container.networks ≡ some address)
                × (address ≢ []))
            × (ip ≡ none))
        ⊎ ((listed ≡ [])
            × (lookup (bytes "host") container.networks ≡ none)
            × ((bridged : Str) × (gwbridge_ip parse_cidr daemon network_name container ≡ ok bridged)
                × (((bridged ≢ []) × (ip ≡ some bridged)) ⊎ ((bridged ≡ []) × (ip ≡ none)))))

  -- What a container gives: a service with its labels and its address, under its name, or nothing
  -- where it has no name or no address, or where the Swarm has a service of that name.
  abbrev pub IsFoundIn : Daemon → Str → List Service → ContainerListItem → Option Service → Type 0
  IsFoundIn daemon network_name swarm container (some svc) =
      (name0 : Str) × (names : List Str) × (ip : Str) × (container.names ≡ name0 ∷ names)
      × HasAddress daemon network_name container (some ip)
      × All (λ s. s.name ≢ name_of container name0) swarm
      × (svc ≡ record {
        name = name_of container name0;
        image = container.image;
        labels = container.labels;
        instances =
            record {
              docker_task_id = container.id;
              node_id = bytes "dummy";
              node_hostname = bytes "dummy";
              ipv4 = ip;
            }
            ∷ [];
      })
  IsFoundIn daemon network_name swarm container none =
      (container.names ≡ [])
      ⊎ HasAddress daemon network_name container none
      ⊎ ((name0 : Str) × (names : List Str) × (container.names ≡ name0 ∷ names)
          × Any (λ s. s.name ≡ name_of container name0) swarm)

  listed_ip-listed_address :
      (network_name : Str) (networks : Dict Str)
      → listed_ip parse_cidr network_name networks ≡ listed_address network_name networks
  unfolding listed_ip
  listed_ip-listed_address network_name networks =
      ap
        (λ a. or_in parse_cidr (or_in parse_cidr a network_name networks) (bytes "bridge") networks)
        auto
      ∙ three (if network_name == bytes "_auto_" then only_address networks else [])
          (or_blank (lookup network_name networks)) (or_blank (lookup (bytes "bridge") networks))
    where
      same : (networks : Dict Str) → auto_ip parse_cidr networks ≡ only_address networks
      same [] = refl
      same ((name, ip) ∷ []) = refl
      same ((name, ip) ∷ other ∷ networks) = refl

      auto :
          (if network_name == bytes "_auto_" then auto_ip parse_cidr networks else [])
          ≡ (if network_name == bytes "_auto_" then only_address networks else [])
      auto = ap (λ a. if network_name == bytes "_auto_" then a else []) (same networks)

      three :
          (a b c : Str)
          → (if is_empty (if is_empty a then b else a) then c else (if is_empty a then b else a))
            ≡ first_given (a ∷ b ∷ c ∷ [])
      three [] [] [] = refl
      three [] [] (z ∷ c) = refl
      three [] (y ∷ b) c = refl
      three (x ∷ a) b c = refl

  address-HasAddress :
      (daemon : Daemon) (network_name : Str) (container : ContainerListItem) (ip : Option Str)
      → or_gwbridge parse_cidr daemon network_name container (
          host_ip parse_cidr
            (listed_ip parse_cidr network_name container.networks)
            (lookup (bytes "host") container.networks))
        ≡ ok ip
      → HasAddress daemon network_name container ip
  unfolding bytes
  address-HasAddress daemon network_name container ip h =
      go (listed_ip parse_cidr network_name container.networks)
        (lookup (bytes "host") container.networks)
        (listed_ip-listed_address network_name container.networks) refl h
    where
      bridge :
          (bridged : Str)
          → ok (if is_empty bridged then none else some bridged) ≡ ok ip
          → ((bridged ≢ []) × (ip ≡ some bridged)) ⊎ ((bridged ≡ []) × (ip ≡ none))
      bridge [] k = inr (refl, sym (ok-injective k))
      bridge (c ∷ b) k = inl ((λ e. cc), sym (ok-injective k))

      go :
          (l : Str) (host : Option Str)
          → l ≡ listed_address network_name container.networks
          → lookup (bytes "host") container.networks ≡ host
          → or_gwbridge parse_cidr daemon network_name container (host_ip parse_cidr l host) ≡ ok ip
          → HasAddress daemon network_name container ip
      go (c ∷ l) host is at k = record {
        listed = c ∷ l;
        is_listed = is;
        from = inl ((λ e. cc), sym (ok-injective k));
      }
      go [] (some []) is at k = record {
        listed = [];
        is_listed = is;
        from = inr (inl (refl, at, sym (ok-injective k)));
      }
      go [] (some (c ∷ a)) is at k = record {
        listed = [];
        is_listed = is;
        from = inr (inr (inl (refl, (c ∷ a, at, (λ e. cc)), sym (ok-injective k))));
      }
      go [] none is at k =
          let (bridged, g, rest) =
            >>=-eq-ok (gwbridge_ip parse_cidr daemon network_name container) _ k in
          record {
            listed = [];
            is_listed = is;
            from = inr (inr (inr (refl, at, (bridged, g, bridge bridged rest))));
          }

  service_of_container-IsFoundIn :
      (daemon : Daemon) (network_name : Str) (swarm : List Service) (container : ContainerListItem)
      (name0 : Str) (names : List Str) (ip : Option Str) (found : Option Service)
      → container.names ≡ name0 ∷ names
      → HasAddress daemon network_name container ip
      → service_of_container parse_cidr container name0 swarm ip ≡ found
      → IsFoundIn daemon network_name swarm container found
  service_of_container-IsFoundIn daemon network_name swarm container name0 names none found e a h =
      subst (IsFoundIn daemon network_name swarm container) h (inr (inl a))
  service_of_container-IsFoundIn daemon network_name swarm container name0 names (some ip) found e a
        h =
      let named = coalesce-first_given (
        or_blank (lookup (bytes "com.docker.compose.project") container.labels)
        ∷ or_blank (lookup (bytes "com.docker.swarm.service.name") container.labels)
        ∷ name0
        ∷ []) in
      subst (IsFoundIn daemon network_name swarm container) h (
        rw named (elim (Bool-cases (svcs_contains swarm (name_of container name0))) [
          | inl k ↦
              rw k
                (inr (inr (name0, names, e, svcs_contains-true swarm (name_of container name0) k)))
          | inr k ↦
              rw k (
                name0,
                names,
                ip,
                e,
                a,
                svcs_contains-false swarm (name_of container name0) k,
                refl,
              )
        ]))

  discover_container-IsFoundIn :
      (daemon : Daemon) (network_name : Str) (swarm : List Service) (container : ContainerListItem)
      (found : Option Service)
      → discover_container parse_cidr daemon network_name swarm container ≡ ok found
      → IsFoundIn daemon network_name swarm container found
  unfolding discover_container
  discover_container-IsFoundIn daemon network_name swarm container found h =
      named container.names refl h
    where
      named :
          (names : List Str)
          → container.names ≡ names
          → of_named parse_cidr daemon network_name swarm container names ≡ ok found
          → IsFoundIn daemon network_name swarm container found
      named [] e k = subst (IsFoundIn daemon network_name swarm container) (ok-injective k) (inl e)
      named (name0 ∷ names) e k =
          let (ip, is, rest) =
            >>=-eq-ok
              (or_gwbridge parse_cidr daemon network_name container (
                host_ip parse_cidr (listed_ip parse_cidr network_name container.networks)
                  (lookup (bytes "host") container.networks)))
              _ k in
          service_of_container-IsFoundIn daemon network_name swarm container name0 names ip found e
            (address-HasAddress daemon network_name container ip is) (ok-injective rest)

  pub discover_containers-found :
      (daemon : Daemon) (network_name : Str) (swarm : List Service)
      (containers : List ContainerListItem) (before out : List Service)
      → discover_containers parse_cidr daemon network_name swarm containers before ≡ ok out
      → (found : List (Option Service)) × Each
          (IsFoundIn daemon network_name swarm)
          containers
          found
        × (out ≡ before ++ given found)
  unfolding discover_containers
  discover_containers-found daemon network_name swarm [] before out h =
      ([], tt, sym (ok-injective h) ∙ sym (append-nil before))
  discover_containers-found daemon network_name swarm (c ∷ containers) before out h =
      let (found, now, later) =
        >>=-eq-ok (discover_container parse_cidr daemon network_name swarm c) _ h in
      let (rest, each, is) =
        discover_containers-found daemon network_name swarm containers
          (add_found parse_cidr found before) out later in
      (
        found ∷ rest,
        (discover_container-IsFoundIn daemon network_name swarm c found now, each),
        is ∙ added found rest,
      )
    where
      added :
          (found : Option Service) (rest : List (Option Service))
          → add_found parse_cidr found before ++ given rest ≡ before ++ given (found ∷ rest)
      added none rest = refl
      added (some svc) rest = append_assoc before (svc ∷ []) (given rest)
