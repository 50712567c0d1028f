-- ===== src/Tests/Charts.antt =====
-- A chart with its values, and the witnesses of the version bumps.
use vcluster_manager.Prelude.{String, ◌≡◌, refl, true, none, [], any}
use vcluster_manager.Text.{codes}
use vcluster_manager.Cluster.{returned}
use vcluster_manager.Charts.Yaml.{
  document, mapping, scalar, Node, node, no_nodes, with_node, set_yaml_node_value,
}
use vcluster_manager.Charts.Yaml.Laws.{value_at, IsEdited, value_set}
use vcluster_manager.Charts.{ChartRepo, Bumping, tag_path, update_k8s_version}
use vcluster_manager.Charts.Laws.{removes_preprod, of_k8s, update_version, merge_removes_preprod}

abbrev leaf : String → Node
leaf text = node scalar "!!str" text no_nodes

-- A mapping of one key.
abbrev under : String → Node → Node
under key n = node mapping "!!map" "" (with_node (leaf key) (with_node n no_nodes))

abbrev values : Node
values = node document "" "" (
    with_node
      (under "vcluster" (
        under "controlPlane"
          (under "distro" (under "k8s" (under "image" (under "tag" (leaf "v1.31.0")))))))
      no_nodes)

abbrev chart : Node
chart = under "version" (leaf "0.30.0")

-- A repository in which nothing is pending and every call goes through.
abbrev charts : ChartRepo (Unit {0}) String
charts = record {
  chart_path = codes "charts/vcluster";
  get_file = λ branch path w. (returned path, w);
  commit = λ branch actions w. (none, w);
  open_requests = λ branch w. (returned [], w);
  create_request = λ source target title removes w. (returned "https://gitlab/7", w);
  parse_yaml = λ text. returned values;
  print_yaml = λ n. returned (codes "vcluster: {}");
  chart_version = λ text. returned "0.30.0";
  default_tag = λ text. returned "v1.31.0";
  dependencies = λ n. returned [];
  lock_content = λ deps w. (returned (codes "lock"), w);
}

abbrev start : Bumping (Unit {0})
start = record { world = tt; calls = [] }

value_set_example :
    IsEdited value_at values tag_path "v1.32.1" (set_yaml_node_value values tag_path "v1.32.1")
value_set_example = value_set values tag_path "v1.32.1"

merge_removes_preprod_example :
    any removes_preprod (update_version charts (of_k8s "v1.32.1") start).1.calls ≡ true
unfolding update_k8s_version set_yaml_node_value
merge_removes_preprod_example =
    merge_removes_preprod charts (of_k8s "v1.32.1") start (λ w. refl) refl
