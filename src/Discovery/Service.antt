-- ===== src/Discovery/Service.antt =====
-- pkg/erdiscovery/dockerdiscovery/docker.go: a discovered service and its labels.
use edgerouter.Base.{Str, List, [], Option, none, some}
use edgerouter.Base.Dict.{Dict, lookup}

pub record ServiceInstance : Type 0 where
  pub docker_task_id : Str
  pub node_id : Str
  pub node_hostname : Str
  pub ipv4 : Str

pub record Service : Type 0 where
  pub name : Str
  pub image : Str
  pub labels : Dict Str
  pub instances : List ServiceInstance

-- Reading a missing key of a map of strings gives the empty string.
abbrev pub or_blank : Option Str → Str
or_blank none = []
or_blank (some s) = s

-- service.Labels[key]
abbrev pub label : Service → Str → Str
label service key = or_blank (lookup key service.labels)
