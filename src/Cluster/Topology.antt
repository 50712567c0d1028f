-- ===== src/Cluster/Topology.antt =====
-- What the quiescing of a vcluster leaves for those who look for its volume afterwards: the
-- behaviour of internal/kubernetes/velero.go over an API server whose documented behaviour is
-- assumed where a theorem says so.
use vcluster_manager.Prelude.{
  ℕ, zero, suc, ◌≡◌, refl, String, Bool, true, false, none, List, [], ◌∷◌, ◌≢◌, ◌⊎◌, inl, inr, ap,
  ◌∙◌, sym, arith, str_eq,
}
use vcluster_manager.VCluster.{Error}
use vcluster_manager.Cluster.{
  Gvr, stateful_set, pod, persistent_volume_claim, Unstructured, Result, returned, raised, Dynamic,
  is_not_found, host_name, etcd_name, VClusterTopology,
}
use vcluster_manager.Cluster.Workloads.{
  external_etcd, embedded_etcd, control_plane_gvr, detect_vcluster_topology, workload_selector,
  poll_pods, wait_for_pods_gone_by_selector, etcd_selector, delete_workloads, quiesce_topology,
  quiesce_vcluster_for_in_place_restore, get_vcluster_pvc_state,
}

abbrev pub is_absent : Result Unstructured → Bool
is_absent (returned _) = false
is_absent (raised e) = is_not_found e

-- Volumes are no workloads.
abbrev pub is_volume : Gvr → Bool
is_volume persistent_volume_claim = true
is_volume _ = false

-- The API server while no one else writes: a read changes nothing, and the deletion of a workload
-- leaves the volumes alone.
pub record QuietServer {W : Type 0} (c : Dynamic W) : Type 0 where
  pub get_keeps : (g : Gvr) (ns name : String) (w : W) → (c.get g ns name w).1 ≡ w
  pub list_keeps :
      (g : Gvr) (ns : String) (labels : List (String × String)) (w : W)
      → (c.list g ns labels w).1 ≡ w
  pub volume_stays :
      (g : Gvr) (ns name ns' pvc : String) (w : W)
      → is_volume g ≡ false
      → (c.get persistent_volume_claim ns' pvc (c.delete g ns name w).1).0
        ≡ (c.get persistent_volume_claim ns' pvc w).0

Result-cases :
    {A : Type 0} (r : Result A) → ((a : A) × (r ≡ returned a)) ⊎ ((e : Error) × (r ≡ raised e))
Result-cases (returned a) = inl (a, refl)
Result-cases (raised e) = inr (e, refl)

true≢false : true ≢ false
true≢false h = ground arith

module _ {W : Type 0} (c : Dynamic W) where
  -- Where no etcd StatefulSet is found, the volume that is looked for is the one of an embedded
  -- etcd.
  absent_as_embedded :
      (name : String) (w : W)
      → is_absent (c.get stateful_set (host_name name) (etcd_name name) w).0 ≡ true
      → (detect_vcluster_topology c name w).0 ≡ returned (embedded_etcd name)
  unfolding detect_vcluster_topology
  absent_as_embedded name w h = ground arith

  detected :
      (name : String) (t : VClusterTopology) (w : W)
      → (detect_vcluster_topology c name w).0 ≡ returned t
      → ((plane : Result Unstructured) × (external_etcd name plane ≡ t)) ⊎ (embedded_etcd name ≡ t)
  unfolding detect_vcluster_topology
  detected name t w h =
      elim (Result-cases (c.get stateful_set (host_name name) (etcd_name name) w).0) [
        | inl (o, e) ↦ inl (
          (c.get stateful_set (host_name name) (host_name name)
              (c.get stateful_set (host_name name) (etcd_name name) w).1).0,
          ground arith,
        )
        | inr (x, e) ↦ inr (ground arith)
      ]

  detected_etcd :
      (name : String) (t : VClusterTopology) (w : W)
      → (detect_vcluster_topology c name w).0 ≡ returned t
      → str_eq t.etcd_stateful_set "" ≡ false
      → t.etcd_stateful_set ≡ etcd_name name
  unfolding external_etcd embedded_etcd
  detected_etcd name t w h x = elim (detected name t w h) [
    | inl (plane, e) ↦ sym (ap (λ u. u.etcd_stateful_set) e)
    | inr e ↦ absurd (true≢false (ap (λ u. str_eq u.etcd_stateful_set "") e ∙ x))
  ]

module _ {W : Type 0} (c : Dynamic W) (q : QuietServer c) where
  detect_keeps : (name : String) (w : W) → (detect_vcluster_topology c name w).1 ≡ w
  unfolding detect_vcluster_topology
  detect_keeps name w = grind (arith, q.get_keeps)

  selector_keeps : (g : Gvr) (ns name : String) (w : W) → (workload_selector c g ns name w).1 ≡ w
  unfolding workload_selector
  selector_keeps g ns name w = grind (arith, q.get_keeps)

  etcd_selector_keeps :
      (name : String) (t : VClusterTopology) (w : W) → (etcd_selector c name t w).1 ≡ w
  unfolding etcd_selector
  etcd_selector_keeps name t w =
      ground (arith, selector_keeps stateful_set (host_name name) t.etcd_stateful_set w)

  poll_keeps :
      (polls : ℕ) (ns : String) (labels : List (String × String)) (w : W)
      → (poll_pods c polls ns labels w).1 ≡ w
  unfolding poll_pods
  poll_keeps zero ns labels w = grind (arith, q.list_keeps)
  poll_keeps (suc n) ns labels w =
      let once = q.list_keeps pod ns labels w in
      ground (arith, once, poll_keeps n ns labels (c.list pod ns labels w).1)

  wait_keeps :
      (polls : ℕ) (ns : String) (labels : List (String × String)) (w : W)
      → (wait_for_pods_gone_by_selector c polls ns labels w).1 ≡ w
  unfolding wait_for_pods_gone_by_selector
  wait_keeps polls ns [] w = refl
  wait_keeps polls ns (l ∷ ls) w = poll_keeps polls ns (l ∷ ls) w

  workload_no_volume : (t : VClusterTopology) → is_volume (control_plane_gvr t) ≡ false
  unfolding control_plane_gvr
  workload_no_volume t = ground arith

  delete_workloads-volume :
      (name pvc : String) (t : VClusterTopology) (w : W)
      → (c.get persistent_volume_claim (host_name name) pvc (delete_workloads c name t w).1).0
        ≡ (c.get persistent_volume_claim (host_name name) pvc w).0
  unfolding delete_workloads
  delete_workloads-volume name pvc t w = grind (arith, q.volume_stays, workload_no_volume t)

  quiesce_topology-tells :
      (polls : ℕ) (name : String) (t u : VClusterTopology) (w : W)
      → (quiesce_topology c polls name t w).0 ≡ returned u
      → (u ≡ t)
        × ((delete_workloads c name t w).0 ≡ none)
        × ((quiesce_topology c polls name t w).1 ≡ (delete_workloads c name t w).1)
  unfolding quiesce_topology
  quiesce_topology-tells polls name t u w h =
      let a = selector_keeps (control_plane_gvr t) (host_name name) (host_name name) w in
      let b = etcd_selector_keeps name t w in
      (ground (arith, a, b), ground (arith, a, b), grind (arith, a, b, wait_keeps))

  quiesce_from :
      (polls : ℕ) (name : String) (t u : VClusterTopology) (w : W)
      → (detect_vcluster_topology c name w).0 ≡ returned u
      → (quiesce_vcluster_for_in_place_restore c polls name w).0 ≡ returned t
      → (u ≡ t)
        × ((delete_workloads c name t w).0 ≡ none)
        × ((quiesce_vcluster_for_in_place_restore c polls name w).1
            ≡ (delete_workloads c name t w).1)
  unfolding quiesce_vcluster_for_in_place_restore
  quiesce_from polls name t u w d h =
      let a = detect_keeps name w in
      let tells = quiesce_topology-tells polls name u t w in
      (ground (arith, a, tells), ground (arith, a, tells), ground (arith, a, tells))

  undetected :
      (polls : ℕ) (name : String) (t : VClusterTopology) (w : W) (e : Error)
      → (detect_vcluster_topology c name w).0 ≡ raised e
      → (quiesce_vcluster_for_in_place_restore c polls name w).0 ≢ returned t
  unfolding quiesce_vcluster_for_in_place_restore
  undetected polls name t w e d h = ground arith

  quiesce-tells :
      (polls : ℕ) (name : String) (t : VClusterTopology) (w : W)
      → (quiesce_vcluster_for_in_place_restore c polls name w).0 ≡ returned t
      → ((detect_vcluster_topology c name w).0 ≡ returned t)
        × ((delete_workloads c name t w).0 ≡ none)
        × ((quiesce_vcluster_for_in_place_restore c polls name w).1
            ≡ (delete_workloads c name t w).1)
  quiesce-tells polls name t w h = elim (Result-cases (detect_vcluster_topology c name w).0) [
    | inl (u, d) ↦
        let tells = quiesce_from polls name t u w d h in (d ∙ ap returned tells.0, tells.1, tells.2)
    | inr (e, d) ↦ absurd (undetected polls name t w e d h)
  ]

  state_of_embedded :
      (name : String) (w : W)
      → (detect_vcluster_topology c name w).0 ≡ returned (embedded_etcd name)
      → is_absent (c.get persistent_volume_claim (host_name name) (embedded_etcd name).pvc_name w).0
        ≡ true
      → (get_vcluster_pvc_state c name w).0 ≡ returned (false, false)
  unfolding get_vcluster_pvc_state
  state_of_embedded name w d h = ground (arith, detect_keeps name w)

  -- Over an API server that no one else writes to, the quiescing of a vcluster with an external etcd,
  -- once the StatefulSet of that etcd is gone, makes its volume disappear from the view of GetVClusterPVCState: afterwards, where no volume has
  -- the name that an embedded etcd gives it, the state that is read is that of a volume that is not
  -- there, though the volume that the topology named answers as it did before.
  pub quiesced_volume_unseen :
      (polls : ℕ) (name : String) (t : VClusterTopology) (w : W)
      → (quiesce_vcluster_for_in_place_restore c polls name w).0 ≡ returned t
      → str_eq t.etcd_stateful_set "" ≡ false
      → is_absent (c.get persistent_volume_claim (host_name name) (embedded_etcd name).pvc_name w).0
        ≡ true
      → is_absent
          (c.get stateful_set
            (host_name name)
            t.etcd_stateful_set
            (quiesce_vcluster_for_in_place_restore c polls name w).1).0
        ≡ true
      → (let after = (quiesce_vcluster_for_in_place_restore c polls name w).1 in
          ((get_vcluster_pvc_state c name after).0 ≡ returned (false, false))
          × ((c.get persistent_volume_claim (host_name name) t.pvc_name after).0
              ≡ (c.get persistent_volume_claim (host_name name) t.pvc_name w).0))
  quiesced_volume_unseen polls name t w h x gone removed =
      let tells = quiesce-tells polls name t w h in
      let named = detected_etcd c name t w tells.0 x in
      let etcd : is_absent
            (c.get stateful_set (host_name name) t.etcd_stateful_set
              (delete_workloads c name t w).1).0
          ≡ true =
        rw (sym tells.2) removed in
      let volume = λ (pvc : String). delete_workloads-volume name pvc t w in
      rw tells.2 (
        state_of_embedded name (delete_workloads c name t w).1
            (absent_as_embedded c name (delete_workloads c name t w).1 (rw (sym named) etcd))
            (rw (volume (embedded_etcd name).pvc_name) gone),
        volume t.pvc_name,
      )
