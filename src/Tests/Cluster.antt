-- ===== src/Tests/Cluster.antt =====
-- A concrete cluster for the tests of the restores.
use vcluster_manager.Prelude.{
  ℕ, ◌≡◌, ap, refl, String, Bool, true, false, not, ◌&&◌, Option, none, some, [], ◌==◌,
  if◌then◌else◌, arith, str_eq,
}
use vcluster_manager.VCluster.{Error, not_found}
use vcluster_manager.Marker.{RestoreOpsStatus}
use vcluster_manager.Cluster.{
  Gvr, stateful_set, deployment, pod, persistent_volume_claim, helm_release, kustomization,
  velero_backup, velero_restore, delete_backup_request, velero_ops, Unstructured, Result, returned,
  raised, Dynamic,
}
use vcluster_manager.Cluster.Topology.{QuietServer, is_volume}
use vcluster_manager.Velero.{Actor, StatusClient, Service, ServiceRun, status_client}

abbrev pub no_restore : RestoreOpsStatus
no_restore = record {
  last_handled_requested_at = "";
  restore_name = "";
  from_backup = "";
  target = "";
  in_place = false;
  phase = "";
  first_terminal_at = none;
  resume_pending = false;
  resume_failed = false;
  resume_error = "";
  volume_destroyed = false;
}

-- Every object of the cluster is a completed one.
abbrev pub object : String → Unstructured
object name = record {
  name = name;
  phase = "Completed";
  included_namespaces = [];
  match_labels = [];
  is_deleting = false;
  start_timestamp = "";
  completion_timestamp = "";
  restore = no_restore;
}

abbrev pub index : Gvr → ℕ
index stateful_set = 0
index deployment = 1
index pod = 2
index persistent_volume_claim = 3
index helm_release = 4
index kustomization = 5
index velero_backup = 6
index velero_restore = 7
index delete_backup_request = 8
index velero_ops = 9

-- Which objects are there.
abbrev pub Store : Type 0
Store = Gvr → String → Bool

abbrev pub found : Bool → String → Result Unstructured
found true name = returned (object name)
found false name = raised not_found

abbrev pub without : Gvr → String → Store → Gvr → String → Bool
without g name w h n = w h n && not (index g == index h && str_eq name n)

-- A cluster whose Kustomizations answer what is given.
abbrev pub cluster : Option Error → Dynamic Store
cluster kustomized = record {
  get = λ g ns name w. (found (w g name) name, w);
  list = λ g ns labels w. (returned [], w);
  create = λ g ns manifest w. (returned "created", w);
  delete = λ g ns name w. (none, without g name w);
  patch = λ g ns name patch w. (if index g == 5 then kustomized else none, w);
  millis = λ w. ("0", w);
}

not_a_volume : (g : Gvr) → is_volume g ≡ false → (index g == index persistent_volume_claim) ≡ false
not_a_volume g h = ground arith

kept :
    (g : Gvr) (name pvc : String) (w : Store)
    → is_volume g ≡ false
    → without g name w persistent_volume_claim pvc ≡ w persistent_volume_claim pvc
kept g name pvc w h = ground (arith, not_a_volume g h)

pub quiet : QuietServer (cluster none)
quiet = record {
  get_keeps = λ g ns name w. refl;
  list_keeps = λ g ns labels w. refl;
  volume_stays = λ g ns name ns' pvc w h. ap (λ b. found b pvc) (kept g name pvc w h);
}

-- A vcluster with an external etcd and its volume, and all that the test reads besides.
abbrev pub external : Store
external persistent_volume_claim name = not (str_eq name "data-vcluster-demo-0")
external stateful_set name = str_eq name "vcluster-demo-etcd"
external _ _ = true

abbrev pub service : StatusClient Store → String → Service Store
service k mode = record {
  k8s_for_env = λ env. some k;
  velero_namespace = "velero";
  velero_trigger_mode = mode;
  velero_default_ttl = "";
  new_request_nonce = λ w. ("noon", w);
  error_text = λ e. "error";
}

-- A run that starts.
abbrev pub at : Store → ServiceRun Store
at w = record { world = w; resume_states = []; calls = [] }

abbrev pub admin : Actor
admin = record { username = "root"; is_admin = true }

-- The client of that cluster.
abbrev pub client : StatusClient Store
client = status_client (cluster none)
