-- ===== src/Action/Labels.antt =====
-- pkg/types/v1/grub.go: the GRUB variables of the specifications.
use elemental_cli.Base.{String, Option, none, some, [], ◌∷◌}
use elemental_cli.Base.Dict.{Dict, insert}
use elemental_cli.Constants
use elemental_cli.InstallState.{InstallState, PartitionState, get}
use elemental_cli.Machine.{Result, ok, panicked}
use elemental_cli.Partitions.{Pointer, Heap, ElementalPartitions}
use elemental_cli.Spec.{Image, InstallSpec, UpgradeSpec, ResetSpec}
use elemental_cli.Action.State.{recovery_img_name}

add_persistent_label : Heap → Option Pointer → Dict String → Dict String
unfolding insert
add_persistent_label h none d = d
add_persistent_label h (some p) d = insert "persistent_label" (h p).filesystem_label d

-- The labels that all specifications have; a partition that is nil panics.
common_labels : Heap → ElementalPartitions → Image → Image → Result (Dict String)
common_labels h ep active passive = elim ep.state [
  | none ↦ panicked
  | some state ↦ elim ep.recovery [
    | none ↦ panicked
    | some recovery ↦ elim ep.oem [
      | none ↦ panicked
      | some oem ↦ ok (
          ("state_label", (h state).filesystem_label)
          ∷ ("active_label", active.label)
          ∷ ("passive_label", passive.label)
          ∷ ("recovery_label", (h recovery).filesystem_label)
          ∷ ("oem_label", (h oem).filesystem_label)
          ∷ [])
    ]
  ]
]

system_labels : Heap → ElementalPartitions → Image → Image → Image → Result (Dict String)
unfolding common_labels add_persistent_label insert
system_labels h ep active passive recovery = elim (common_labels h ep active passive) [
  | ok d ↦ ok (add_persistent_label h ep.persistent (insert "system_label" recovery.label d))
  | _ ↦ panicked
]

-- `GetGrubLabels` of an `InstallSpec` and of an `UpgradeSpec`
unfoldable pub install_labels : Heap → InstallSpec → Result (Dict String)
unfolding system_labels
install_labels h i = system_labels h i.partitions i.active i.passive i.recovery

unfoldable pub upgrade_labels : Heap → UpgradeSpec → Result (Dict String)
unfolding system_labels
upgrade_labels h u = system_labels h u.partitions u.active u.passive u.recovery

-- The labels of the recovery system in the install state; an image that is nil is taken as missing.
state_labels : Option PartitionState → Dict String → Dict String
unfolding get insert
state_labels none d = d
state_labels (some part) d =
    let d' = insert "recovery_label" part.fs_label d in
    elim (get recovery_img_name part.images) [
      | none ↦ d'
      | some img ↦ insert "system_label" img.label d'
    ]

recovery_labels : Option InstallState → Dict String → Dict String
unfolding get state_labels
recovery_labels none d = d
recovery_labels (some st) d = state_labels (get Constants.recovery_part_name st.partitions) d

-- `GetGrubLabels` of a `ResetSpec`, on a state whose entries are not nil.
unfoldable pub reset_labels : Heap → ResetSpec → Result (Dict String)
unfolding common_labels add_persistent_label recovery_labels
reset_labels h r = elim (common_labels h r.partitions r.active r.passive) [
  | ok d ↦ ok (add_persistent_label h r.partitions.persistent (recovery_labels r.state d))
  | _ ↦ panicked
]
