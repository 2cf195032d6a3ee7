-- ===== src/Discovery/Docker/Bare.antt =====
-- pkg/erdiscovery/dockerdiscovery/docker.go: the applications of all services, those of the Swarm and
-- those of the containers outside of it.
use edgerouter.Base.{
  ap, err, panic, ◌⊎◌, Str, ◌≡◌, subst, ◌↔◌, inl, inr, List, [], ◌∷◌, ◌++◌, Option, none, some,
  Result, ok, >>=-eq-ok, ok-injective, Any, Each,
}
use edgerouter.Config.{Application}
use edgerouter.Discovery.Service.{Service}
use edgerouter.Discovery.Udocker.{ContainerListItem, Daemon}
use edgerouter.Discovery.Traefik.{traefik_annotations_to_app}
use edgerouter.Discovery.Docker.{
  add_app, apps_of, discover_docker_containers, discover_swarm_services, read_docker_applications,
}
use edgerouter.Discovery.Docker.Found.{given, IsFoundIn, discover_containers-found}

-- An application is listed exactly if one of the services gives it.
abbrev pub Gives : Application → Service → Type 0
Gives app s = traefik_annotations_to_app s ≡ ok (some app)

abbrev Listed : Application → List Application → Type 0
Listed app apps = Any (λ a. a ≡ app) apps

add_app_iff :
    (app : Application) (made : Result (Option Application)) (apps out : List Application)
    → add_app made apps ≡ ok out
    → Listed app out ↔ ((made ≡ ok (some app)) ⊎ Listed app apps)
add_app_iff app (ok none) apps out h =
    let same : apps ≡ out = ok-injective h in
    subst (λ l. Listed app l ↔ ((ok none ≡ ok (some app)) ⊎ Listed app apps)) same
      ((λ l. inr l), elim [ inl e ↦ cc | inr l ↦ l ])
add_app_iff app (ok (some made)) apps out h =
    let same : made ∷ apps ≡ out = ok-injective h in
    subst (λ l. Listed app l ↔ ((ok (some made) ≡ ok (some app)) ⊎ Listed app apps)) same
      (
        elim [ inl e ↦ inl (ap (λ a. ok (some a)) e) | inr l ↦ inr l ],
        elim [ inl e ↦ inl cc | inr l ↦ inr l ],
      )
add_app_iff app (err m) apps out h =
    let same : apps ≡ out = ok-injective h in
    subst (λ l. Listed app l ↔ ((err m ≡ ok (some app)) ⊎ Listed app apps)) same
      ((λ l. inr l), elim [ inl e ↦ cc | inr l ↦ l ])
add_app_iff app panic apps out h = cc

apps_of_iff :
    (services : List Service) (apps : List Application) (app : Application)
    → apps_of services ≡ ok apps
    → Listed app apps ↔ Any (Gives app) services
unfolding apps_of
apps_of_iff [] apps app h =
    let none_listed : [] ≡ apps = ok-injective h in
    subst (λ l. Listed app l ↔ ⊥) none_listed ((λ x. x), (λ x. x))
apps_of_iff (s ∷ services) out app h =
    let (apps, rest, first) =
      >>=-eq-ok (apps_of services) (λ apps. add_app (traefik_annotations_to_app s) apps) h in
    let (to, from) = apps_of_iff services apps app rest in
    let (to', from') = add_app_iff app (traefik_annotations_to_app s) apps out first in
    (
      λ l. elim (to' l) [ inl now ↦ inl now | inr later ↦ inr (to later) ],
      elim [ inl now ↦ from' (inl now) | inr later ↦ from' (inr (from later)) ],
    )

module _ (parse_cidr : Str → Result Str) where
  -- The applications that are read from a daemon are exactly those that the services of the Swarm and
  -- of the containers give, whatever other services do. Each container that the daemon lists gives, in
  -- order, one service, with the container's labels, name and address, or none: if it has no name or
  -- no address, or if a service of the Swarm has its name, so that none is discovered twice.
  pub read_docker_applications-Gives :
      (daemon : Daemon) (network_name : Str) (apps : List Application)
      → read_docker_applications parse_cidr daemon network_name ≡ ok apps
      → (swarm : List Service) × (containers : List ContainerListItem) × (found : List
          (Option Service))
        × (discover_swarm_services parse_cidr daemon network_name ≡ ok swarm)
        × (daemon.containers ≡ ok containers)
        × Each (IsFoundIn parse_cidr daemon network_name swarm) containers found
        × ((app : Application) → Any (λ a. a ≡ app) apps ↔ Any (Gives app) (swarm ++ given found))
  unfolding read_docker_applications discover_docker_containers
  read_docker_applications-Gives daemon network_name apps h =
      let (swarm, s, h₁) = >>=-eq-ok (discover_swarm_services parse_cidr daemon network_name) _ h in
      let (bare, b, h₂) =
        >>=-eq-ok (discover_docker_containers parse_cidr daemon network_name swarm) _ h₁ in
      let (containers, c, h₃) = >>=-eq-ok daemon.containers _ b in
      let (found, each, is) =
        discover_containers-found parse_cidr daemon network_name swarm containers [] bare h₃ in
      (
        swarm,
        containers,
        found,
        s,
        c,
        each,
        λ app.
            apps_of_iff (swarm ++ given found) apps app
              (subst (λ l. apps_of (swarm ++ l) ≡ ok apps) is h₂),
      )
