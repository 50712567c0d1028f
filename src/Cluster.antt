-- ===== src/Cluster.antt =====
-- The client of the host cluster, as far as the backups and restores use it:
-- internal/kubernetes/velero.go over the dynamic client of k8s.io/client-go, which is a parameter.
-- An object is what the code reads of it, an absent field being Go's zero value; a call takes the
-- world and gives its answer with the world after it. The texts of errors are kept where they wrap
-- another.
pub mod Workloads
pub mod Velero
pub mod Orders
pub mod Topology
use Prim.Native.String.{◌++◌ as append}
use vcluster_manager.Prelude.{ℕ, ◌≡◌, String, Bool, true, false, Option, none, some, List, ◌||◌}
use vcluster_manager.VCluster.{
  Error, vault_unset, keycloak_unset, not_found, already_exists, other, wrap, join,
}
use vcluster_manager.Marker.{RestoreOpsStatus}

pub data Gvr : Type 0 where
  stateful_set deployment pod persistent_volume_claim helm_release kustomization : Gvr
  velero_backup velero_restore delete_backup_request velero_ops : Gvr

-- What is read of an object.
pub record Unstructured : Type 0 where
  pub name : String
  pub phase : String
  pub included_namespaces : List String
  pub match_labels : List (String × String)
  pub is_deleting : Bool
  pub start_timestamp : String
  pub completion_timestamp : String
  pub restore : RestoreOpsStatus

-- What is created: a Restore with its backup, its namespaces and its namespace mapping; a Backup
-- with its namespaces, its location and its time to live (what else it holds is constant); a
-- DeleteBackupRequest; a marker with its annotations.
pub data Manifest : Type 0 where
  restore_manifest : String → String → List String → Option (String × String) → Manifest
  backup_manifest : String → List String → String → String → Manifest
  delete_manifest : String → String → Manifest
  marker_manifest : String → List (String × String) → Manifest

-- What is merged into an object.
pub data Patch : Type 0 where
  suspend_patch : Bool → Patch
  replicas_patch : ℕ → Patch
  annotations_patch : List (String × String) → Patch

-- A value and a nil error, or an error.
pub data Result {ℓ} (A : Type ℓ) : Type ℓ where
  returned : A → Result A
  raised : Error → Result A

abbrev pub Io : Type 0 → Type 0 → Type 0
Io W A = W → A × W

infixl 10 ◌>>=◌ ◌>>◌
abbrev pub ◌>>=◌ : {W A B : Type 0} → Io W A → (A → Io W B) → Io W B
◌>>=◌ m f w = let (a, w') = m w in f a w'

abbrev pub ◌>>◌ : {W A B : Type 0} → Io W A → Io W B → Io W B
◌>>◌ m k w = k (m w).1

abbrev pub pure : {W A : Type 0} → A → Io W A
pure a w = (a, w)

-- The dynamic client: a resource, a namespace and a name or a selector. A creation answers the
-- name that the server gave. The clock is read as the decimal text of its milliseconds.
pub record Dynamic (W : Type 0) : Type 0 where
  pub get : Gvr → String → String → Io W (Result Unstructured)
  pub list : Gvr → String → List (String × String) → Io W (Result (List Unstructured))
  pub create : Gvr → String → Manifest → Io W (Result String)
  pub delete : Gvr → String → String → Io W (Option Error)
  pub patch : Gvr → String → String → Patch → Io W (Option Error)
  pub millis : Io W String

-- The reasons of the API server that the code asks for.
pub data ApiReason : Type 0 where
  reason_not_found reason_already_exists : ApiReason

abbrev or_else : Option ApiReason → Option ApiReason → Option ApiReason
or_else none o = o
or_else (some r) _ = some r

-- apierrors.ReasonForError: the first API error of the chain.
unfoldable pub reason_for_error : Error → Option ApiReason
reason_for_error vault_unset = none
reason_for_error keycloak_unset = none
reason_for_error not_found = some reason_not_found
reason_for_error already_exists = some reason_already_exists
reason_for_error (other s) = none
reason_for_error (wrap s e) = reason_for_error e
reason_for_error (join d e) = or_else (reason_for_error d) (reason_for_error e)

-- apierrors.IsNotFound
unfoldable pub is_not_found : Error → Bool
unfolding reason_for_error
is_not_found e = elim (reason_for_error e) [
  | some reason_not_found ↦ true
  | some reason_already_exists ↦ false
  | none ↦ false
]

-- apierrors.IsAlreadyExists
unfoldable pub is_already_exists : Error → Bool
unfolding reason_for_error
is_already_exists e = elim (reason_for_error e) [
  | some reason_not_found ↦ false
  | some reason_already_exists ↦ true
  | none ↦ false
]

-- The namespace of a vcluster in the host cluster, and the name of its control plane.
unfoldable pub host_name : String → String
host_name name = append "vcluster-" name

unfoldable pub etcd_name : String → String
etcd_name name = append (append "vcluster-" name) "-etcd"

pub record VClusterTopology : Type 0 where
  pub control_plane_kind : String
  pub etcd_stateful_set : String
  pub pvc_name : String
