-- ===== src/Action/State.antt =====
-- The install state that the actions write, and the GRUB variables of pkg/types/v1/grub.go.
use elemental_cli.Base.{String, ◌&&◌, Option, none, some, [], ◌∷◌, ◌==◌, string_eq, if◌then◌else◌}
use elemental_cli.Base.Dict.{Dict, insert}
use elemental_cli.Constants
use elemental_cli.ImageSource.{ImageSource, is_file}
use elemental_cli.InstallState.{InstallState, PartitionState, ImageState, SourceMetadata, get}
use elemental_cli.Machine.{Result, ok, fail, panicked}
use elemental_cli.Errors.{Error, single, plain}
use elemental_cli.Partitions.{Pointer, Heap}
use elemental_cli.Spec.{Image, InstallSpec, UpgradeSpec, ResetSpec}

abbrev pub active_img_name : String
active_img_name = "active"

abbrev pub passive_img_name : String
passive_img_name = "passive"

abbrev pub recovery_img_name : String
recovery_img_name = "recovery"

abbrev pub image_state : Option ImageSource → Option SourceMetadata → Image → Option ImageState
image_state src meta img =
    some (record { source = src; source_metadata = meta; label = img.label; fs = img.fs })

-- `installState.Partitions[name] = &v1.PartitionState{FSLabel: ...}` for a partition that is not nil.
unfoldable pub add_part :
    Heap → String → Option Pointer → Dict (Option PartitionState) → Dict (Option PartitionState)
unfolding insert
add_part h name none d = d
add_part h name (some p) d =
    insert name (some (record { fs_label = (h p).filesystem_label; images = [] })) d

abbrev state_part : Heap → Pointer → Option SourceMetadata → Image → Image → PartitionState
state_part h state meta active passive = record {
  fs_label = (h state).filesystem_label;
  images =
      (active_img_name, image_state active.source meta active)
      ∷ (passive_img_name, image_state active.source meta passive)
      ∷ [];
}

-- The recovery image is a copy of the active one: it has its source and metadata.
unfoldable pub copied :
    Image
    → ImageSource
    → Option SourceMetadata
    → Option SourceMetadata
    → Option ImageSource × Option SourceMetadata
copied active src sys_meta rec_meta =
    if is_file src && active.file == src.source
    then (active.source, sys_meta)
    else (some src, rec_meta)

unfoldable pub install_state_of :
    String
    → Heap
    → InstallSpec
    → Pointer
    → Pointer
    → Option SourceMetadata
    → Option ImageSource × Option SourceMetadata
    → InstallState
unfolding add_part
install_state_of now h i state recovery sys_meta (rec_source, rec_meta) = record {
  date = now;
  partitions = add_part h Constants.efi_part_name i.partitions.efi (
      add_part h Constants.persistent_part_name i.partitions.persistent (
        add_part h Constants.oem_part_name i.partitions.oem (
          (Constants.state_part_name, some (state_part h state sys_meta i.active i.passive))
          ∷ (
            Constants.recovery_part_name,
            some (record {
              fs_label = (h recovery).filesystem_label;
              images = (recovery_img_name, image_state rec_source rec_meta i.recovery) ∷ [];
            }),
          )
          ∷ [])));
}

undefined_parts : Error
undefined_parts = single (plain "undefined state or recovery partition")

-- The state that `createInstallStateYaml` of pkg/action/install.go writes.
unfoldable pub create_install_state :
    String
    → Heap
    → InstallSpec
    → Option SourceMetadata
    → Option SourceMetadata
    → Result InstallState
unfolding copied install_state_of undefined_parts is_file
create_install_state now h i sys_meta rec_meta = elim i.partitions.state [
  | none ↦ fail undefined_parts
  | some state ↦ elim i.partitions.recovery [
    | none ↦ fail undefined_parts
    | some recovery ↦ elim i.recovery.source [
      | none ↦ panicked
      | some src ↦
          ok (
            install_state_of now h i state recovery sys_meta
              (copied i.active src sys_meta rec_meta))
    ]
  ]
]

-- The entry of the recovery partition is that of the state before.
keep_recovery : Option InstallState → Dict (Option PartitionState) → Dict (Option PartitionState)
unfolding get insert
keep_recovery none d = d
keep_recovery (some st) d =
    insert Constants.recovery_part_name (get Constants.recovery_part_name st.partitions) d

-- The state that `updateInstallState` of pkg/action/reset.go writes; a map that is nil is empty.
unfoldable pub reset_install_state :
    String → Heap → ResetSpec → Option SourceMetadata → Result InstallState
unfolding keep_recovery add_part undefined_parts
reset_install_state now h r meta = elim r.partitions.recovery [
  | none ↦ fail undefined_parts
  | some _ ↦ elim r.partitions.state [
    | none ↦ fail undefined_parts
    | some state ↦ ok (record {
      date = now;
      partitions = keep_recovery r.state (
          add_part h Constants.persistent_part_name r.partitions.persistent (
            add_part h Constants.oem_part_name r.partitions.oem (
              (Constants.state_part_name, some (state_part h state meta r.active r.passive))
              ∷ [])));
    })
  ]
]

unfoldable pub old_state : Option InstallState → Dict (Option PartitionState)
old_state none = []
old_state (some st) = st.partitions

-- The entry of a partition in the state, or a new one.
unfoldable pub entry_of : Option PartitionState → String → PartitionState
entry_of none label = record { fs_label = label; images = [] }
entry_of (some part) label = part

unfoldable pub label_of_image : Option ImageState → String → String
label_of_image none label = label
label_of_image (some img) label = img.label

abbrev nothing : ImageState
nothing = record { source = none; source_metadata = none; label = ""; fs = "" }

known : Option ImageState → ImageState
known none = nothing
known (some img) = img

-- The passive image takes over what the active one was, but for its label.
unfoldable pub demote : Option ImageState → Option ImageState → String → ImageState
unfolding label_of_image known
demote none passive label = elim passive [
  | none ↦ record nothing { label = label }
  | some img ↦ img
]
demote (some active) passive label = record active { label = label_of_image passive label }

unfoldable pub upgrade_images :
    Dict (Option ImageState) → ImageState → String → Dict (Option ImageState)
unfolding demote insert get
upgrade_images images img label = insert active_img_name (some img) (
    insert passive_img_name
      (some (demote (get active_img_name images) (get passive_img_name images) label)) images)

-- The state that `upgradeInstallStateYaml` of pkg/action/upgrade.go writes, on maps that are not nil.
unfoldable pub upgrade_install_state :
    String → Heap → UpgradeSpec → Option SourceMetadata → Image → Result InstallState
unfolding undefined_parts old_state entry_of upgrade_images insert get
upgrade_install_state now h u meta img = elim u.partitions.recovery [
  | none ↦ fail undefined_parts
  | some recovery ↦ elim u.partitions.state [
    | none ↦ fail undefined_parts
    | some state ↦
        let new : ImageState = record {
          source = img.source;
          source_metadata = meta;
          label = img.label;
          fs = img.fs;
        } in
        let old = old_state u.state in
        let rec = entry_of (get Constants.recovery_part_name old) (h recovery).filesystem_label in
        let st = entry_of (get Constants.state_part_name old) (h state).filesystem_label in
        ok (record {
          date = now;
          partitions =
              if u.recovery_upgrade
              then insert Constants.recovery_part_name
                  (some (record rec { images = insert recovery_img_name (some new) rec.images }))
                  old
              else insert Constants.state_part_name
                  (some (record st { images = upgrade_images st.images new u.passive.label })) old;
        })
  ]
]
