-- ===== src/Deletion/Trace.antt =====
-- What the log of a pass says of destruction: which calls destroy, and which answers allow it.
use vcluster_manager.Prelude.{
  ℕ, ◌-◌, String, ltb, ◌==◌, Bool, true, false, not, Option, none, some, List, [], ◌∷◌, ◌&&◌, ◌||◌,
  any,
}
use vcluster_manager.Text.{codes, lower_all, trim_space, same_text}
use vcluster_manager.Reconciler.{
  Run, Call, inspected_backup, audited_override, set_protection, saw_namespace, deleted_namespace,
  tore_down, updated, updated_status, triggered_backup,
}
use vcluster_manager.Reconciler.Answers.{NamespaceState}

-- The calls that take something away: the protection, what lives outside, the namespace.
abbrev pub destroys : Call → Bool
destroys (set_protection _ _) = true
destroys (deleted_namespace _) = true
destroys (tore_down _ _ _) = true
destroys _ = false

-- A word of an annotation that waives nothing.
abbrev is_refusal : List ℕ → Bool
is_refusal word =
    same_text word []
    || same_text word (codes "false")
    || same_text word (codes "no")
    || same_text word (codes "non")
    || same_text word (codes "0")
    || same_text word (codes "off")

-- A text other than those words, case and blanks around it aside.
unfoldable pub waives : String → Bool
waives text = not (is_refusal (lower_all (trim_space (codes text))))

-- The answers after which data may be destroyed: there is no namespace, an annotation that is no
-- refusal waived the backup, or Velero shows a completed one.
abbrev pub authorises : Call → Bool
authorises (saw_namespace st) = st.known && not st.exists
authorises (audited_override who) = waives who
authorises (inspected_backup st none) = st.completed
authorises _ = false

-- Every destroying call of a log has an authorising one before it (the latest stands first).
abbrev pub is_safe : List Call → Bool
is_safe [] = true
is_safe (c ∷ cs) = (not (destroys c) || any authorises cs) && is_safe cs

-- The finalizer is taken off by an update of the object itself.
abbrev pub writes_object : Call → Bool
writes_object (updated _ _) = true
writes_object _ = false

-- What was last seen of the host namespace.
abbrev pub last_seen : List Call → Option NamespaceState
last_seen [] = none
last_seen (saw_namespace st ∷ cs) = some st
last_seen (_ ∷ cs) = last_seen cs

abbrev is_concluded : ℕ → ℕ → Option NamespaceState → Bool
is_concluded now after none = false
is_concluded now after (some st) =
    st.known
    && (not st.exists
        || not (st.deletion_timestamp == 0) && ltb after (now - st.deletion_timestamp))

-- The namespace was last seen gone, or terminating for longer than ten minutes.
unfoldable pub concludes : {W : Type 0} → Run W → Bool
concludes s = is_concluded s.now 600 (last_seen s.calls)

-- The log ends with the status stored and then the object written.
abbrev pub status_stored_first : List Call → Bool
status_stored_first (updated _ _ ∷ updated_status _ none ∷ _) = true
status_stored_first _ = false

-- A backup was asked for.
abbrev pub triggers : Call → Bool
triggers (triggered_backup _) = true
triggers _ = false

-- A backup was asked for, and accepted.
abbrev pub triggers_ok : Call → Bool
triggers_ok (triggered_backup none) = true
triggers_ok _ = false
