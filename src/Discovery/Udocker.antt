-- ===== src/Discovery/Udocker.antt =====
-- The types of package udocker that pkg/erdiscovery/dockerdiscovery/docker.go reads, by the fields
-- that it reads, and the answers of a Docker daemon.
use edgerouter.Base.{Str, List, Result}
use edgerouter.Base.Dict.{Dict}

pub record TaskNetworkAttachment : Type 0 where
  pub network_name : Str
  pub addresses : List Str

pub record Task : Type 0 where
  pub id : Str
  pub service_id : Str
  pub node_id : Str
  pub networks_attachments : List TaskNetworkAttachment

pub record Node : Type 0 where
  pub id : Str
  pub hostname : Str

pub record SwarmService : Type 0 where
  pub id : Str
  pub name : Str
  pub image : Str
  pub labels : Dict Str

-- The networks of a container, each with the container's address in it.
pub record ContainerListItem : Type 0 where
  pub id : Str
  pub names : List Str
  pub image : Str
  pub labels : Dict Str
  pub networks : Dict Str

-- What the daemon answers to the requests; `network_inspect` gives the containers of the network
-- that is asked for, each with its address and the mask.
pub record Daemon : Type 0 where
  pub tasks : Result (List Task)
  pub services : Result (List SwarmService)
  pub nodes : Result (List Node)
  pub containers : Result (List ContainerListItem)
  pub network_inspect : Str → Result (Dict Str)
