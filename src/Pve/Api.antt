-- ===== src/Pve/Api.antt =====
-- internal/pve/api.go: the rows of the PVE API, as `encoding/json` fills them.
use pve_exporter.Base.{String}
use pve_exporter.Base.Dict.{Dict}
use pve_exporter.Pve.Parse.{FlexFloat}

-- GET /cluster/resources
pub record ClusterResource : Type 0 where
  pub id : String
  pub type : String
  pub node : String
  pub name : String
  pub status : String
  pub cpu : FlexFloat
  pub max_cpu : FlexFloat
  pub mem : FlexFloat
  pub max_mem : FlexFloat
  pub disk : FlexFloat
  pub max_disk : FlexFloat
  pub uptime : FlexFloat
  pub disk_read : FlexFloat
  pub disk_write : FlexFloat
  pub net_in : FlexFloat
  pub net_out : FlexFloat
  pub template : FlexFloat
  pub shared : FlexFloat
  pub tags : String
  pub storage : String
  pub plugin_type : String
  pub content : String
  pub ha_state : String
  pub lock : String
  pub vmid : FlexFloat

-- GET /cluster/status
pub record ClusterStatusEntry : Type 0 where
  pub id : String
  pub type : String
  pub name : String
  pub nodes : FlexFloat
  pub quorate : FlexFloat
  pub version : FlexFloat
  pub node_id : FlexFloat
  pub level : String
  pub online : FlexFloat

-- GET /version
pub record VersionInfo : Type 0 where
  pub release : String
  pub repo_id : String
  pub version : String

-- GET /cluster/config/qdevice
pub record QdeviceConfig : Type 0 where
  pub model : String
  pub network : Dict String

-- GET /cluster/backup-info/not-backed-up
pub record NotBackedUpGuest : Type 0 where
  pub vmid : FlexFloat
  pub type : String
  pub name : String

-- GET /nodes/{node}/subscription
pub record SubscriptionInfo : Type 0 where
  pub status : String
  pub level : String
  pub next_due_date : String

-- GET /nodes/{node}/qemu
pub record GuestRef : Type 0 where
  pub vmid : FlexFloat

-- GET /nodes/{node}/{qemu,lxc}/{vmid}/config
pub record GuestConfig : Type 0 where
  pub onboot : FlexFloat

-- GET /nodes/{node}/replication
pub record ReplicationJob : Type 0 where
  pub id : String
  pub type : String
  pub source : String
  pub target : String
  pub guest : FlexFloat

-- GET /nodes/{node}/replication/{id}/status
pub record ReplicationStatus : Type 0 where
  pub duration : FlexFloat
  pub last_sync : FlexFloat
  pub last_try : FlexFloat
  pub next_sync : FlexFloat
  pub fail_count : FlexFloat

-- GET /cluster/ha/status/current
pub record HaStatusEntry : Type 0 where
  pub id : String
  pub type : String
  pub node : String
  pub status : String
  pub state : String
  pub sid : String
