-- ===== src/Action/Written.antt =====
-- What the install state that an action has written tells the next one.
use elemental_cli.Base.{
  ◌≡◌, refl, ◌∙◌, ap, String, false, Option, none, some, [], ◌∷◌, arith, string_eq, Option-cases,
  inl, inr,
}
use elemental_cli.Base.Dict.{Dict, lookup, insert}
use elemental_cli.Constants
use elemental_cli.ImageSource.{ImageSource}
use elemental_cli.InstallState.{
  InstallState, PartitionState, ImageState, SourceMetadata, get, get-insert,
}
use elemental_cli.Machine.{ok}
use elemental_cli.Partitions.{Pointer, Heap, ElementalPartitions, label_of}
use elemental_cli.Spec.{Image, InstallSpec, UpgradeSpec}
use elemental_cli.Action.State.{
  add_part, create_install_state, install_state_of, copied, upgrade_install_state, upgrade_images,
  entry_of, old_state, demote, label_of_image, active_img_name, passive_img_name,
}

-- The label of a partition, or a default if it is nil.
abbrev pub label_at : Heap → Option Pointer → String → String
label_at h none default = default
label_at h (some p) default = (h p).filesystem_label

-- The labels of the partitions of a system, as the state has them.
abbrev pub HasLabels : Heap → ElementalPartitions → InstallState → String → Type 0
HasLabels h ep st default =
    (label_of (some st) Constants.efi_part_name default ≡ label_at h ep.efi default)
    × (label_of (some st) Constants.oem_part_name default ≡ label_at h ep.oem default)
    × (label_of (some st) Constants.recovery_part_name default ≡ label_at h ep.recovery default)
    × (label_of (some st) Constants.state_part_name default ≡ label_at h ep.state default)
    × (label_of (some st) Constants.persistent_part_name default ≡ label_at h ep.persistent default)

module _ (h : Heap) (now default : String) (state recovery : PartitionState) where
  abbrev written : Option Pointer → Option Pointer → Option Pointer → InstallState
  written efi persistent oem = record {
    date = now;
    partitions = add_part h Constants.efi_part_name efi (
        add_part h Constants.persistent_part_name persistent (
          add_part h Constants.oem_part_name oem (
            (Constants.state_part_name, some state)
            ∷ (Constants.recovery_part_name, some recovery)
            ∷ [])));
  }

  abbrev Labelled : Option Pointer → Option Pointer → Option Pointer → Type 0
  Labelled efi persistent oem =
      let st = written efi persistent oem in
      (label_of (some st) Constants.efi_part_name default ≡ label_at h efi default)
      × (label_of (some st) Constants.oem_part_name default ≡ label_at h oem default)
      × (label_of (some st) Constants.recovery_part_name default ≡ recovery.fs_label)
      × (label_of (some st) Constants.state_part_name default ≡ state.fs_label)
      × (label_of (some st) Constants.persistent_part_name default ≡ label_at h persistent default)

  written-Labelled : (efi persistent oem : Option Pointer) → Labelled efi persistent oem
  unfolding add_part label_of get lookup insert string_eq
  written-Labelled none none none = (refl, refl, refl, refl, refl)
  written-Labelled none none (some c) = (refl, refl, refl, refl, refl)
  written-Labelled none (some b) none = (refl, refl, refl, refl, refl)
  written-Labelled none (some b) (some c) = (refl, refl, refl, refl, refl)
  written-Labelled (some a) none none = (refl, refl, refl, refl, refl)
  written-Labelled (some a) none (some c) = (refl, refl, refl, refl, refl)
  written-Labelled (some a) (some b) none = (refl, refl, refl, refl, refl)
  written-Labelled (some a) (some b) (some c) = (refl, refl, refl, refl, refl)

installed :
    (now : String) (h : Heap) (i : InstallSpec) (sys_meta rec_meta : Option SourceMetadata)
    {st : InstallState}
    → create_install_state now h i sys_meta rec_meta ≡ ok st
    → (state : Pointer) × (recovery : Pointer) × (rec : Option ImageSource × Option SourceMetadata)
      × (i.partitions.state ≡ some state)
      × (i.partitions.recovery ≡ some recovery)
      × (install_state_of now h i state recovery sys_meta rec ≡ st)
unfolding create_install_state
installed now h i sys_meta rec_meta e = elim (Option-cases i.partitions.state) [
  | inl nil ↦ absurd (ground (arith, e, nil))
  | inr (state, s) ↦ elim (Option-cases i.partitions.recovery) [
    | inl nil ↦ absurd (ground (arith, e, s, nil))
    | inr (recovery, r) ↦ elim (Option-cases i.recovery.source) [
      | inl nil ↦ absurd (ground (arith, e, s, r, nil))
      | inr (src, q) ↦
          (state, recovery, copied i.active src sys_meta rec_meta, s, r, ground (arith, e, s, r, q))
    ]
  ]
]

-- The state that `createInstallStateYaml` builds for an installation records the labels of the EFI,
-- the OEM, the recovery, the state and the persistent partition that the specification has: the label
-- that `NewElementalPartitionsFromList` reads from that state for such a partition is the partition's
-- own, whatever the default label is, and the default label if the partition is nil.
pub create_install_state-HasLabels :
    (now : String) (h : Heap) (i : InstallSpec) (sys_meta rec_meta : Option SourceMetadata)
    (default : String) {st : InstallState}
    → create_install_state now h i sys_meta rec_meta ≡ ok st
    → HasLabels h i.partitions st default
unfolding install_state_of
create_install_state-HasLabels now h i sys_meta rec_meta default e =
    let (state, recovery, (rec_source, rec_meta'), s, r, same) =
      installed now h i sys_meta rec_meta e in
    let (a, b, c, d, f) =
      written-Labelled h now default _ _ i.partitions.efi i.partitions.persistent
        i.partitions.oem in
    rw (← same, s, r, install_state_of) (a, b, c, d, f)

abbrev new_image : Image → Option SourceMetadata → ImageState
new_image img meta = record {
  source = img.source;
  source_metadata = meta;
  label = img.label;
  fs = img.fs;
}

-- What an upgrade of the system records: the active image is the new one, the passive image is what
-- the active one was, but for its label, and the recovery partition is as before.
abbrev pub Upgraded : InstallState → ImageState → InstallState → ImageState → Type 0
Upgraded before old after new =
    (part : PartitionState) × (passive : ImageState) × (get Constants.state_part_name
        after.partitions
      ≡ some part)
    × (get active_img_name part.images ≡ some new)
    × (get passive_img_name part.images ≡ some passive)
    × (passive.source ≡ old.source)
    × (passive.source_metadata ≡ old.source_metadata)
    × (passive.fs ≡ old.fs)
    × (get Constants.recovery_part_name after.partitions
        ≡ get Constants.recovery_part_name before.partitions)

abbrev upgraded : String → InstallState → PartitionState → ImageState → String → InstallState
upgraded now before part new label = record {
  date = now;
  partitions =
      insert Constants.state_part_name
        (some (record part { images = upgrade_images part.images new label })) before.partitions;
}

written_upgrade :
    (now : String) (h : Heap) (u : UpgradeSpec) (meta : Option SourceMetadata) (img : Image)
    {before : InstallState} {part : PartitionState} {after : InstallState}
    → u.recovery_upgrade ≡ false
    → u.state ≡ some before
    → get Constants.state_part_name before.partitions ≡ some part
    → upgrade_install_state now h u meta img ≡ ok after
    → upgraded now before part (new_image img meta) u.passive.label ≡ after
unfolding upgrade_install_state old_state entry_of
written_upgrade now h u meta img system st has e = elim (Option-cases u.partitions.recovery) [
  | inl nil ↦ absurd (ground (arith, e, nil))
  | inr (recovery, r) ↦ elim (Option-cases u.partitions.state) [
    | inl nil ↦ absurd (ground (arith, e, r, nil))
    | inr (state, s) ↦ ground (arith, e, r, s, system, st, has)
  ]
]

upgraded-Upgraded :
    (now : String) (before : InstallState) (part : PartitionState) (new old : ImageState)
    (label : String)
    → get active_img_name part.images ≡ some old
    → Upgraded before old (upgraded now before part new label) new
unfolding upgrade_images demote string_eq
upgraded-Upgraded now before part new old label active =
    let images : Dict (Option ImageState) =
      insert passive_img_name
        (some (demote (get active_img_name part.images) (get passive_img_name part.images) label))
        part.images in
    let passive = record old { label = label_of_image (get passive_img_name part.images) label } in
    (
      record part { images = upgrade_images part.images new label },
      passive,
      get-insert Constants.state_part_name Constants.state_part_name _ before.partitions,
      get-insert active_img_name active_img_name (some new) images,
      get-insert passive_img_name active_img_name (some new) images
          ∙ get-insert passive_img_name passive_img_name _ part.images
          ∙ ap (λ o. some (demote o (get passive_img_name part.images) label)) active,
      refl,
      refl,
      refl,
      get-insert Constants.recovery_part_name Constants.state_part_name _ before.partitions,
    )

-- On a state that has the partition and its active image, an upgrade of the system writes a state in
-- which the active image is the new one, the passive image has the source, the metadata and the file
-- system of the active one before, and the recovery partition is as before.
pub upgrade_install_state-Upgraded :
    (now : String) (h : Heap) (u : UpgradeSpec) (meta : Option SourceMetadata) (img : Image)
    {before : InstallState} {part : PartitionState} {old : ImageState} {after : InstallState}
    → u.recovery_upgrade ≡ false
    → u.state ≡ some before
    → get Constants.state_part_name before.partitions ≡ some part
    → get active_img_name part.images ≡ some old
    → upgrade_install_state now h u meta img ≡ ok after
    → Upgraded before old after (new_image img meta)
upgrade_install_state-Upgraded now h u meta img {before} {part} {old} system st has active e =
    rw (← written_upgrade now h u meta img system st has e)
      (upgraded-Upgraded now before part (new_image img meta) old u.passive.label active)
