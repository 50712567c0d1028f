-- ===== src/Tests/Crossing.antt =====
-- A restore of one vcluster into another (internal/service/velero.go).
use vcluster_manager.Prelude.{
  ◌≡◌, refl, ap, String, true, false, Option, none, some, List, [], ◌∷◌, any, arith, str_eq,
  if◌then◌else◌,
}
use vcluster_manager.Marker.Reservation.{str_eq_refl}
use vcluster_manager.Velero.Restore.{create_velero_restore}
use vcluster_manager.VCluster.{Error}
use vcluster_manager.Text.{codes, same_text}
use vcluster_manager.Names.{
  valid_name, is_reserved, matches_name_regex, all_name_chars, is_name_char, is_letter, trim_prefix,
}
use vcluster_manager.Kube.Store.{store}
use vcluster_manager.Marker.{Marker, MarkerRun}
use vcluster_manager.Marker.Restore.{start_restore, is_restoring}
use vcluster_manager.Cluster.{returned}
use vcluster_manager.Cluster.Workloads.{embedded_etcd}
use vcluster_manager.Cluster.Orders.{request_velero_ops}
use vcluster_manager.Velero.{
  StatusClient, Service, ServiceRun, done, refused, cross_vcluster_restore_unsupported,
  valid_backup_name, matches_backup_regex, all_backup_chars, is_backup_char, valid_vcluster_name,
  env_or_default,
}
use vcluster_manager.Velero.Request.{
  VeleroRestoreRequested, ann_restore_target, ann_restore_from_backup, request_velero_restore,
  refuse_order, post_restore, marker_vcluster, restore_annotations,
}
use vcluster_manager.Velero.Crossing.{
  deletes_volume_of, Obliging, Posts, annotation, operator, crossing_deletes_target,
}
use vcluster_manager.Tests.Cluster.{no_restore, admin}

-- The orders that were posted, the latest first.
abbrev Board : Type 0
Board = List (String × List (String × String))

-- A client that posts, and whose answers let every restore go through.
abbrev calm : StatusClient Board
calm = record {
  backup_phase = λ b ns w. (returned "Completed", w);
  suspend_flux = λ name suspend w. (none, w);
  quiesce = λ name w. (returned (embedded_etcd name), w);
  delete_pvc_named = λ name pvc w. (none, w);
  create_restore = λ b source target ns w. (returned "restore", w);
  restore_status = λ restore ns w. (returned "Completed", w);
  restart_dns = λ name w. ((1, none), w);
  request_ops = λ name notes w. (none, (name, notes) ∷ w);
  ops_restore_state = λ name w. (returned none, w);
  pvc_state = λ name w. (returned (true, false), w);
  active_restores = λ name ns w. (returned [], w);
  list_backups = λ name ns w. (returned [], w);
  create_backup = λ name ns ttl what w. (returned "backup", w);
  delete_backup = λ name ns w. (none, w);
}

abbrev board_service : Service Board
board_service = record {
  k8s_for_env = λ env. some calm;
  velero_namespace = "velero";
  velero_trigger_mode = "annotation";
  velero_default_ttl = "";
  new_request_nonce = λ w. ("noon", w);
  error_text = λ e. "error";
}

-- The marker of a vcluster: the latest order that was posted on it.
abbrev latest : String → Board → List (String × String)
latest name [] = []
latest name ((n, notes) ∷ rest) =
    let older = latest name rest in if str_eq n name then notes else older

abbrev marker_on : Board → String → Marker
marker_on w name = record {
  name = name;
  namespace = "";
  backup_requested_at = "";
  restore_requested_at = "noon";
  restore_from_backup = annotation ann_restore_from_backup (latest name w);
  restore_target = annotation ann_restore_target (latest name w);
  status = record {
    backup = record { last_handled_requested_at = ""; backup_name = ""; phase = "" };
    restore = no_restore;
    conditions = [];
  };
}

latest_own :
    (name : String) (notes : List (String × String)) (w : Board)
    → latest name ((name, notes) ∷ w) ≡ notes
latest_own name notes w = ground (arith, str_eq_refl name)

calm-Posts : Posts calm marker_on
calm-Posts = record {
  carried = λ n notes w h. (
    refl,
    ap (annotation ann_restore_target) (latest_own n notes w),
    ap (annotation ann_restore_from_backup) (latest_own n notes w),
  );
}

abbrev start : ServiceRun Board
start = record { world = []; resume_states = []; calls = [] }

abbrev order : VeleroRestoreRequested
order = record {
  requested_at = "noon";
  from_backup = "nightly";
  target = "other";
  name = "other";
  in_place = false;
}

posted :
    (request_velero_restore board_service admin "demo" "" "nightly" "other" start).0 ≡ done order
unfolding request_velero_restore refuse_order post_restore marker_vcluster restore_annotations
    request_velero_ops valid_backup_name matches_backup_regex all_backup_chars is_backup_char
    valid_vcluster_name valid_name is_reserved matches_name_regex all_name_chars is_name_char
    is_letter trim_prefix codes same_text env_or_default
posted = refl

abbrev after_order : ServiceRun Board
after_order = (request_velero_restore board_service admin "demo" "" "nightly" "other" start).1

abbrev carried : MarkerRun (ServiceRun Board)
carried = record {
  now = 0;
  marker = marker_on after_order.world "other";
  world = after_order;
  calls = [];
}

abbrev stored_as_is : Marker → ServiceRun Board → (Marker × Option Error) × ServiceRun Board
stored_as_is m w = ((m, none), w)

not_restoring : is_restoring carried.marker ≡ false
unfolding is_restoring
not_restoring = refl

obliging : Obliging board_service calm "other" "nightly"
obliging = record {
  topology = embedded_etcd "other";
  backup_completed = λ w. refl;
  flux_suspends = λ w. refl;
  quiesces = λ w. refl;
}

crossing_deletes_target_example :
    ((create_velero_restore board_service admin "demo" "" "nightly" "other" true start).0
      ≡ refused cross_vcluster_restore_unsupported)
    × (any
          (deletes_volume_of "other")
          (start_restore (operator board_service store "prod" stored_as_is) carried).1.world.calls
        ≡ true)
crossing_deletes_target_example =
    crossing_deletes_target board_service calm store "prod" stored_as_is marker_on admin "demo" ""
      "nightly" "other" true start order carried calm-Posts refl refl refl refl posted refl
      not_restoring obliging (λ m w. refl)
