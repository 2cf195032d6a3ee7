-- ===== src/Discovery/Docker.antt =====
-- pkg/erdiscovery/dockerdiscovery/docker.go: the services of a Docker daemon and its Swarm. What the
-- daemon answers and net.ParseCIDR are parameters.
pub mod Laws
pub mod Found
pub mod Bare
use edgerouter.Base.{
  Str, bytes, ◌==◌, Bool, true, false, not, ◌&&◌, List, [], ◌∷◌, ◌++◌, Option, none, some, Result,
  ok, err, panic, ◌>>=◌, find, if◌then◌else◌,
}
use edgerouter.Base.Dict.{Dict, lookup}
use edgerouter.Config.{Application}
use edgerouter.Config.Validate.{is_empty}
use edgerouter.Discovery.Udocker.{
  TaskNetworkAttachment, Task, Node, SwarmService, ContainerListItem, Daemon,
}
use edgerouter.Discovery.Service.{ServiceInstance, Service, or_blank}
use edgerouter.Discovery.Traefik.{traefik_annotations_to_app}

unfoldable pub network_attachment_for_network_name : Task → Str → Option TaskNetworkAttachment
network_attachment_for_network_name task network_name =
    find (λ a. a.network_name == network_name) task.networks_attachments

unfoldable pub node_by_id : Str → List Node → Option Node
node_by_id id nodes = find (λ n. n.id == id) nodes

unfoldable pub coalesce : List Str → Str
coalesce [] = []
coalesce (item ∷ items) = if not (is_empty item) then item else coalesce items

unfoldable pub svcs_contains : List Service → Str → Bool
svcs_contains [] name = false
svcs_contains (svc ∷ services) name = if svc.name == name then true else svcs_contains services name

-- The loop over the services: an error is only logged.
abbrev pub add_app : Result (Option Application) → List Application → Result (List Application)
add_app (ok (some app)) apps = ok (app ∷ apps)
add_app (ok none) apps = ok apps
add_app (err e) apps = ok apps
add_app panic apps = panic

unfoldable pub apps_of : List Service → Result (List Application)
apps_of [] = ok []
apps_of (s ∷ services) = do apps ← apps_of services; add_app (traefik_annotations_to_app s) apps

-- `parse_cidr` gives the text of the address that net.ParseCIDR reads.
module _ (parse_cidr : Str → Result Str) where
  -- `attachment.Addresses[0]`, which panics on an empty list.
  abbrev pub first_ip : List Str → Result Str
  first_ip [] = panic
  first_ip (address ∷ addresses) = parse_cidr address

  abbrev pub instance_on : Task → Str → Option Node → Result (Option ServiceInstance)
  instance_on task ip none =
      err (bytes "node " ++ (task.node_id ++ (bytes " not found for task " ++ task.id)))
  instance_on task ip (some node) = ok (
      some (record {
        docker_task_id = task.id;
        node_id = node.id;
        node_hostname = node.hostname;
        ipv4 = ip;
      }))

  abbrev pub instance_attached :
      Task → List Node → Option TaskNetworkAttachment → Result (Option ServiceInstance)
  instance_attached task nodes none = ok none
  instance_attached task nodes (some attachment) = do
    ip ← first_ip attachment.addresses
    if is_empty task.node_id then ok none else instance_on task ip (node_by_id task.node_id nodes)

  -- One round of the loop over the tasks: no instance, where the source continues.
  unfoldable pub instance_of_task :
      Str → SwarmService → List Node → Task → Result (Option ServiceInstance)
  unfolding network_attachment_for_network_name node_by_id
  instance_of_task network_name service nodes task =
      if not (task.service_id == service.id)
      then ok none
      else instance_attached task nodes (network_attachment_for_network_name task network_name)

  abbrev pub add_instance : Option ServiceInstance → List ServiceInstance → List ServiceInstance
  add_instance none instances = instances
  add_instance (some i) instances = instances ++ i ∷ []

  unfoldable pub instances_of :
      Str
      → SwarmService
      → List Node
      → List Task
      → List ServiceInstance
      → Result (List ServiceInstance)
  unfolding instance_of_task
  instances_of network_name service nodes [] instances = ok instances
  instances_of network_name service nodes (task ∷ tasks) instances = do
    found ← instance_of_task network_name service nodes task
    instances_of network_name service nodes tasks (add_instance found instances)

  abbrev pub add_service : SwarmService → List ServiceInstance → List Service → List Service
  add_service service [] services = services
  add_service service (i ∷ is) services =
      services
      ++ record {
        name = service.name;
        image = service.image;
        labels = service.labels;
        instances = i ∷ is;
      }
        ∷ []

  unfoldable pub services_of :
      Str → List Task → List Node → List SwarmService → List Service → Result (List Service)
  unfolding instances_of
  services_of network_name tasks nodes [] services = ok services
  services_of network_name tasks nodes (s ∷ swarm) services = do
    instances ← instances_of network_name s nodes tasks []
    services_of network_name tasks nodes swarm (add_service s instances services)

  unfoldable pub discover_swarm_services : Daemon → Str → Result (List Service)
  unfolding services_of
  discover_swarm_services daemon network_name = do
    tasks ← daemon.tasks
    swarm ← daemon.services
    nodes ← daemon.nodes
    services_of network_name tasks nodes swarm []

  -- The address that a container has if it has one network.
  abbrev pub auto_ip : Dict Str → Str
  auto_ip ((name, ip) ∷ []) = ip
  auto_ip networks = []

  abbrev pub or_in : Str → Str → Dict Str → Str
  or_in ip network_name networks =
      if is_empty ip then or_blank (lookup network_name networks) else ip

  -- The address from the networks that the container lists.
  unfoldable pub listed_ip : Str → Dict Str → Str
  listed_ip network_name networks =
      or_in
        (or_in (if network_name == bytes "_auto_" then auto_ip networks else []) network_name
          networks)
        (bytes "bridge") networks

  -- The address in the host's network, where nothing means that the source continues.
  abbrev pub host_ip : Str → Option Str → Option Str
  host_ip (c ∷ ip) settings = some (c ∷ ip)
  host_ip [] none = some []
  host_ip [] (some []) = some (bytes "127.0.0.1")
  host_ip [] (some (c ∷ ip)) = none

  abbrev pub without_cidr : Option Str → Str
  without_cidr none = []
  without_cidr (some address) = kept (parse_cidr address)
    where
      kept : Result Str → Str
      kept (ok ip) = ip
      kept (err e) = []
      kept panic = []

  -- The last resort: the address in docker_gwbridge. The inspection's result is kept between the
  -- containers, which makes no difference to what it is.
  unfoldable pub gwbridge_ip : Daemon → Str → ContainerListItem → Result Str
  gwbridge_ip daemon network_name container =
      if network_name == bytes "docker_gwbridge"
      then (do
        attached ← daemon.network_inspect network_name
        ok (without_cidr (lookup container.id attached)))
      else ok []

  abbrev pub or_gwbridge : Daemon → Str → ContainerListItem → Option Str → Result (Option Str)
  or_gwbridge daemon network_name container none = ok none
  or_gwbridge daemon network_name container (some (c ∷ ip)) = ok (some (c ∷ ip))
  or_gwbridge daemon network_name container (some []) = do
    ip ← gwbridge_ip daemon network_name container
    ok (if is_empty ip then none else some ip)

  abbrev pub service_of_container :
      ContainerListItem → Str → List Service → Option Str → Option Service
  service_of_container container name0 swarm none = none
  service_of_container container name0 swarm (some ip) =
      let service_name = coalesce (
        or_blank (lookup (bytes "com.docker.compose.project") container.labels)
        ∷ or_blank (lookup (bytes "com.docker.swarm.service.name") container.labels)
        ∷ name0
        ∷ []) in
      if svcs_contains swarm service_name
      then none
      else some (record {
        name = service_name;
        image = container.image;
        labels = container.labels;
        instances =
            record {
              docker_task_id = container.id;
              node_id = bytes "dummy";
              node_hostname = bytes "dummy";
              ipv4 = ip;
            }
            ∷ [];
      })

  abbrev pub of_named :
      Daemon → Str → List Service → ContainerListItem → List Str → Result (Option Service)
  of_named daemon network_name swarm container [] = ok none
  of_named daemon network_name swarm container (name0 ∷ names) = do
    ip ← or_gwbridge daemon network_name container (
        host_ip (listed_ip network_name container.networks)
          (lookup (bytes "host") container.networks))
    ok (service_of_container container name0 swarm ip)

  -- One round of the loop over the containers.
  unfoldable pub discover_container :
      Daemon → Str → List Service → ContainerListItem → Result (Option Service)
  unfolding listed_ip gwbridge_ip coalesce svcs_contains
  discover_container daemon network_name swarm container =
      of_named daemon network_name swarm container container.names

  abbrev pub add_found : Option Service → List Service → List Service
  add_found none services = services
  add_found (some s) services = services ++ s ∷ []

  unfoldable pub discover_containers :
      Daemon → Str → List Service → List ContainerListItem → List Service → Result (List Service)
  unfolding discover_container
  discover_containers daemon network_name swarm [] services = ok services
  discover_containers daemon network_name swarm (c ∷ containers) services = do
    found ← discover_container daemon network_name swarm c
    discover_containers daemon network_name swarm containers (add_found found services)

  unfoldable pub discover_docker_containers : Daemon → Str → List Service → Result (List Service)
  unfolding discover_containers
  discover_docker_containers daemon network_name swarm = do
    containers ← daemon.containers
    discover_containers daemon network_name swarm containers []

  unfoldable pub read_docker_applications : Daemon → Str → Result (List Application)
  unfolding discover_swarm_services discover_docker_containers apps_of
  read_docker_applications daemon network_name = do
    swarm ← discover_swarm_services daemon network_name
    bare ← discover_docker_containers daemon network_name swarm
    apps_of (swarm ++ bare)
