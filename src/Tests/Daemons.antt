-- ===== src/Tests/Daemons.antt =====
-- Runs of pkg/erdiscovery/dockerdiscovery/docker.go.
use edgerouter.Base.{
  Each, Option, ◌≡◌, refl, ◌↔◌, Str, bytes, ◌==◌, List, [], ◌∷◌, ◌++◌, Result, ok, err, panic, All,
  Any, map, has_prefix, split,
}
use edgerouter.Base.Dict.{lookup}
use edgerouter.Config.{Application}
use edgerouter.Discovery.Service.{Service}
use edgerouter.Discovery.Udocker.{Task, Node, SwarmService, ContainerListItem, Daemon}
use edgerouter.Discovery.Docker.{
  discover_swarm_services, discover_docker_containers, read_docker_applications,
}
use edgerouter.Discovery.Docker.Laws.{FromSwarm, discover_swarm_services-FromSwarm}
use edgerouter.Discovery.Docker.Found.{given, IsFoundIn}
use edgerouter.Discovery.Docker.Bare.{Gives, read_docker_applications-Gives}
use edgerouter.Config.Factories.{simple_application, reverse_proxy_backend}
use edgerouter.Discovery.Traefik.{
  traefik_annotations_to_app, scheme_of, insecure_skip_verify_of, parse_traefik_frontend_rule,
  parse_sub_rules, parse_sub_rule, frontend_of_rule, authorize_backend,
}
use edgerouter.Tests.Labels.{labels}

abbrev no_mask : Str → Result Str
no_mask s = ok s

abbrev task : Str → List Str → Task
task node addresses = record {
  id = bytes "t1";
  service_id = bytes "s1";
  node_id = node;
  networks_attachments = record { network_name = bytes "net"; addresses = addresses } ∷ [];
}

abbrev container : Str → ContainerListItem
container name = record {
  id = bytes "c1";
  names = name ∷ [];
  image = bytes "img";
  labels = labels (bytes "public");
  networks = (bytes "bridge", bytes "172.17.0.2") ∷ [];
}

abbrev daemon : Task → Daemon
daemon t = record {
  tasks = ok (t ∷ []);
  services = ok (
      record { id = bytes "s1"; name = bytes "web"; image = []; labels = labels (bytes "public") }
      ∷ []);
  nodes = ok (record { id = bytes "n1"; hostname = bytes "host1" } ∷ []);
  containers = ok (container (bytes "web") ∷ container (bytes "db") ∷ []);
  network_inspect = λ name. ok [];
}

abbrev running : Task
running = task (bytes "n1") (bytes "10.0.0.2" ∷ [])

abbrev value_of : Result (List Service) → List Service
value_of (ok services) = services
value_of r = []

abbrev swarm : List Service
swarm = value_of (discover_swarm_services no_mask (daemon running) (bytes "net"))

swarm_found : discover_swarm_services no_mask (daemon running) (bytes "net") ≡ ok swarm
unfolding discover_swarm_services ◌==◌ bytes
swarm_found = refl

-- A task on a node that is not known is an error, and one without an address a panic.
unknown_node :
    discover_swarm_services no_mask
      (daemon (task (bytes "n2") (bytes "10.0.0.2" ∷ [])))
      (bytes "net")
    ≡ err (bytes "node n2 not found for task t1")
unfolding discover_swarm_services ◌==◌ bytes
unknown_node = refl

no_address : discover_swarm_services no_mask (daemon (task (bytes "n1") [])) (bytes "net") ≡ panic
unfolding discover_swarm_services ◌==◌ bytes
no_address = refl

discover_swarm_services-FromSwarm_example :
    (tasks : List Task) × (services : List SwarmService) × (nodes : List Node) × ((daemon
        running).tasks
      ≡ ok tasks)
    × ((daemon running).services ≡ ok services)
    × ((daemon running).nodes ≡ ok nodes)
    × All (FromSwarm no_mask (bytes "net") tasks nodes services) swarm
discover_swarm_services-FromSwarm_example =
    discover_swarm_services-FromSwarm no_mask (daemon running) (bytes "net") swarm swarm_found

-- The container whose name the Swarm has is left out.
abbrev bare : List Service
bare = value_of (discover_docker_containers no_mask (daemon running) (bytes "net") swarm)

bare_found :
    bare
    ≡ record {
      name = bytes "db";
      image = bytes "img";
      labels = labels (bytes "public");
      instances =
          record {
            docker_task_id = bytes "c1";
            node_id = bytes "dummy";
            node_hostname = bytes "dummy";
            ipv4 = bytes "172.17.0.2";
          }
          ∷ [];
    }
      ∷ []
unfolding discover_docker_containers ◌==◌ bytes lookup discover_swarm_services
bare_found = refl

abbrev apps_value_of : Result (List Application) → List Application
apps_value_of (ok apps) = apps
apps_value_of r = []

abbrev read_apps : List Application
read_apps = apps_value_of (read_docker_applications no_mask (daemon running) (bytes "net"))

running_read : read_docker_applications no_mask (daemon running) (bytes "net") ≡ ok read_apps
unfolding read_docker_applications bytes ◌==◌ lookup has_prefix split traefik_annotations_to_app
    scheme_of insecure_skip_verify_of parse_traefik_frontend_rule parse_sub_rules parse_sub_rule
    frontend_of_rule authorize_backend simple_application reverse_proxy_backend
running_read = refl

two_read : map (λ a. a.id) read_apps ≡ bytes "web" ∷ bytes "db" ∷ []
unfolding read_docker_applications bytes ◌==◌ lookup has_prefix split traefik_annotations_to_app
    scheme_of insecure_skip_verify_of parse_traefik_frontend_rule parse_sub_rules parse_sub_rule
    frontend_of_rule authorize_backend simple_application reverse_proxy_backend
two_read = refl

read_docker_applications-Gives_example :
    (services : List Service) × (containers : List ContainerListItem) × (found : List
      (Option Service))
    × (discover_swarm_services no_mask (daemon running) (bytes "net") ≡ ok services)
    × ((daemon running).containers ≡ ok containers)
    × Each (IsFoundIn no_mask (daemon running) (bytes "net") services) containers found
    × ((app : Application)
        → Any (λ a. a ≡ app) read_apps ↔ Any (Gives app) (services ++ given found))
read_docker_applications-Gives_example =
    read_docker_applications-Gives no_mask (daemon running) (bytes "net") read_apps running_read
