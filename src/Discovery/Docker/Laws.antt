-- ===== src/Discovery/Docker/Laws.antt =====
-- pkg/erdiscovery/dockerdiscovery/docker.go: what the discovered services and applications are.
use edgerouter.Base.{
  Str, ◌==◌, eq_iff, ◌≡◌, ◌≢◌, refl, sym, ap, ◌∙◌, subst, inl, inr, true, false, List, [], ◌∷◌,
  Option, none, some, Result, ok, >>=-eq-ok, ok-injective, All, Any, All-append, Bool-cases,
}
use edgerouter.Config.Validate.{is_empty, is_empty-false_iff}
use edgerouter.Discovery.Service.{ServiceInstance, Service}
use edgerouter.Discovery.Udocker.{TaskNetworkAttachment, Task, Node, SwarmService, Daemon}
use edgerouter.Discovery.Docker.{
  network_attachment_for_network_name, node_by_id, first_ip, instance_on, instance_attached,
  instance_of_task, add_instance, instances_of, add_service, services_of, discover_swarm_services,
}

module _ (parse_cidr : Str → Result Str) where
  -- The instance is a task of the service on a node that is known, with the first address that the task
  -- has in the network.
  abbrev pub RunsOn : Str → SwarmService → List Node → List Task → ServiceInstance → Type 0
  RunsOn network_name service nodes tasks i =
      Any
        (λ task.
          (task.service_id ≡ service.id)
          × (task.node_id ≢ [])
          × (node : Node) × (attachment : TaskNetworkAttachment) × (node_by_id task.node_id nodes
              ≡ some node)
          × (network_attachment_for_network_name task network_name ≡ some attachment)
          × (first_ip parse_cidr attachment.addresses ≡ ok i.ipv4)
          × (i.docker_task_id ≡ task.id)
          × (i.node_id ≡ node.id)
          × (i.node_hostname ≡ node.hostname))
        tasks

  instance_attached-ok :
      (task : Task) (nodes : List Node) (a : TaskNetworkAttachment) (i : ServiceInstance)
      → instance_attached parse_cidr task nodes (some a) ≡ ok (some i)
      → (task.node_id ≢ [])
        × (node : Node) × (node_by_id task.node_id nodes ≡ some node)
        × (first_ip parse_cidr a.addresses ≡ ok i.ipv4)
        × (i.docker_task_id ≡ task.id)
        × (i.node_id ≡ node.id)
        × (i.node_hostname ≡ node.hostname)
  instance_attached-ok task nodes a i h =
      let (ip, parsed, rest) = >>=-eq-ok (first_ip parse_cidr a.addresses) _ h in
      elim (Bool-cases (is_empty task.node_id)) [
        | inl e ↦ let rest' = rw e at rest in cc
        | inr e ↦ on ip parsed e (node_by_id task.node_id nodes) refl (rw e at rest)
      ]
    where
      on :
          (ip : Str)
          → first_ip parse_cidr a.addresses ≡ ok ip
          → is_empty task.node_id ≡ false
          → (found : Option Node) → node_by_id task.node_id nodes ≡ found
          → instance_on parse_cidr task ip found ≡ ok (some i)
          → (task.node_id ≢ [])
            × (node : Node) × (node_by_id task.node_id nodes ≡ some node)
            × (first_ip parse_cidr a.addresses ≡ ok i.ipv4)
            × (i.docker_task_id ≡ task.id)
            × (i.node_id ≡ node.id)
            × (i.node_hostname ≡ node.hostname)
      on ip parsed e none f k = cc
      on ip parsed e (some node) f k =
          let made : record {
            docker_task_id = task.id;
            node_id = node.id;
            node_hostname = node.hostname;
            ipv4 = ip;
          }
              ≡ i =
            cc in
          (
            (is_empty-false_iff task.node_id).0 e,
            node,
            f,
            parsed ∙ ap (λ j. ok j.ipv4) made,
            sym (ap (λ j. j.docker_task_id) made),
            sym (ap (λ j. j.node_id) made),
            sym (ap (λ j. j.node_hostname) made),
          )

  instance_of_task-ok :
      (network_name : Str) (service : SwarmService) (nodes : List Node) (task : Task)
      (i : ServiceInstance)
      → instance_of_task parse_cidr network_name service nodes task ≡ ok (some i)
      → RunsOn network_name service nodes (task ∷ []) i
  unfolding instance_of_task
  instance_of_task-ok network_name service nodes task i h =
      elim (Bool-cases (task.service_id == service.id)) [
        | inr e ↦ let h' = rw e at h in cc
        | inl e ↦
            attached e (network_attachment_for_network_name task network_name) refl (rw e at h)
      ]
    where
      attached :
          (task.service_id == service.id) ≡ true
          → (found : Option TaskNetworkAttachment)
          → network_attachment_for_network_name task network_name ≡ found
          → instance_attached parse_cidr task nodes found ≡ ok (some i)
          → RunsOn network_name service nodes (task ∷ []) i
      attached e none f k = cc
      attached e (some a) f k =
          let (ne, node, known, ip, r₁, r₂, r₃) = instance_attached-ok task nodes a i k in
          inl ((eq_iff task.service_id service.id).0 e, ne, node, a, known, f, ip, r₁, r₂, r₃)

  RunsOn-left :
      (network_name : Str) (service : SwarmService) (nodes : List Node) (task : Task)
      (tasks : List Task) (i : ServiceInstance)
      → RunsOn network_name service nodes (task ∷ []) i
      → RunsOn network_name service nodes (task ∷ tasks) i
  RunsOn-left network_name service nodes task tasks i (inl r) = inl r
  RunsOn-left network_name service nodes task tasks i (inr r) = elim r [ ]

  instances_of-ok :
      (P : ServiceInstance → Type 0) (network_name : Str) (service : SwarmService)
      (nodes : List Node) (tasks : List Task) (before out : List ServiceInstance)
      → instances_of parse_cidr network_name service nodes tasks before ≡ ok out
      → ((i : ServiceInstance) → RunsOn network_name service nodes tasks i → P i)
      → All P before
      → All P out
  unfolding instances_of
  instances_of-ok P network_name service nodes [] before out h all a =
      subst (All P) (ok-injective h) a
  instances_of-ok P network_name service nodes (task ∷ tasks) before out h all a =
      let (found, now, later) =
        >>=-eq-ok (instance_of_task parse_cidr network_name service nodes task) _ h in
      instances_of-ok P network_name service nodes tasks (add_instance parse_cidr found before) out
        later (λ i r. all i (inr r)) (added found now)
    where
      added :
          (found : Option ServiceInstance)
          → instance_of_task parse_cidr network_name service nodes task ≡ ok found
          → All P (add_instance parse_cidr found before)
      added none e = a
      added (some i) e = All-append P before (i ∷ []) a (
        all i (
            RunsOn-left network_name service nodes task tasks i
              (instance_of_task-ok network_name service nodes task i e)),
        tt,
      )

  -- The service is one of the Swarm's, with at least one instance, and its instances run as they should.
  abbrev pub FromSwarm : Str → List Task → List Node → List SwarmService → Service → Type 0
  FromSwarm network_name tasks nodes swarm svc =
      Any
        (λ s.
          (svc.name ≡ s.name)
          × (svc.image ≡ s.image)
          × (svc.labels ≡ s.labels)
          × (svc.instances ≢ [])
          × All (RunsOn network_name s nodes tasks) svc.instances)
        swarm

  services_of-ok :
      (P : Service → Type 0) (network_name : Str) (tasks : List Task) (nodes : List Node)
      (swarm : List SwarmService) (before out : List Service)
      → services_of parse_cidr network_name tasks nodes swarm before ≡ ok out
      → ((svc : Service) → FromSwarm network_name tasks nodes swarm svc → P svc)
      → All P before
      → All P out
  unfolding services_of
  services_of-ok P network_name tasks nodes [] before out h all a = subst (All P) (ok-injective h) a
  services_of-ok P network_name tasks nodes (s ∷ swarm) before out h all a =
      let (instances, now, later) =
        >>=-eq-ok (instances_of parse_cidr network_name s nodes tasks []) _ h in
      services_of-ok P network_name tasks nodes swarm (add_service parse_cidr s instances before)
        out later (λ svc f. all svc (inr f))
        (added instances (
          instances_of-ok (RunsOn network_name s nodes tasks) network_name s nodes tasks []
            instances now (λ i r. r) tt))
    where
      added :
          (instances : List ServiceInstance)
          → All (RunsOn network_name s nodes tasks) instances
          → All P (add_service parse_cidr s instances before)
      added [] r = a
      added (i ∷ is) r =
          All-append P before (_ ∷ []) a (all _ (inl (refl, refl, refl, (λ e. cc), r)), tt)

  -- Each service that is discovered from the Swarm has at least one instance, and each of its instances
  -- is a task of that service on a known node, with the task's first address in the network.
  pub discover_swarm_services-FromSwarm :
      (daemon : Daemon) (network_name : Str) (services : List Service)
      → discover_swarm_services parse_cidr daemon network_name ≡ ok services
      → (tasks : List Task) × (swarm : List SwarmService) × (nodes : List Node) × (daemon.tasks
          ≡ ok tasks)
        × (daemon.services ≡ ok swarm)
        × (daemon.nodes ≡ ok nodes)
        × All (FromSwarm network_name tasks nodes swarm) services
  unfolding discover_swarm_services
  discover_swarm_services-FromSwarm daemon network_name services h =
      let (tasks, t, h₁) = >>=-eq-ok daemon.tasks _ h in
      let (swarm, s, h₂) = >>=-eq-ok daemon.services _ h₁ in
      let (nodes, n, h₃) = >>=-eq-ok daemon.nodes _ h₂ in
      (
        tasks,
        swarm,
        nodes,
        t,
        s,
        n,
        services_of-ok (FromSwarm network_name tasks nodes swarm) network_name tasks nodes swarm []
            services h₃ (λ svc f. f) tt,
      )
