-- ===== src/Config/Host.antt =====
-- `NewUpgradeSpec` and `NewResetSpec` of pkg/config/config.go, from the partitions and the install
-- state of the host. `fresh` is the pointer that the next allocation would return, and `unmarshal` is
-- `yaml.Unmarshal` of an install state.
use elemental_cli.Base.{
  suc, String, Bool, true, false, Option, none, some, List, [], ◌∷◌, ◌==◌, string_eq, if◌then◌else◌,
}
use elemental_cli.Constants
use elemental_cli.Golang.{Go}
use elemental_cli.ImageSource.{ImageSource, new_empty_src, new_file_src}
use elemental_cli.InstallState.{InstallState, ImageState}
use elemental_cli.Partitions.{
  Partition, Pointer, Heap, PartitionList, ElementalPartitions, store,
  new_elemental_partitions_from_list,
}
use elemental_cli.Machine.{
  Call, Outside, World, M, Result, ok, fail, panicked, ask, output, errorf, pure, ◌>>=◌, with_heap,
}
use elemental_cli.Devices.{exists, booted_from}
use elemental_cli.Spec.{Image, ResetSpec, UpgradeSpec}
use elemental_cli.Config.{no_image, cos_file, get_active_passive_and_recovery_state}

-- The pointers to the partitions that `GetAllPartitions` allocates, and the heap with these.
unfoldable pub pointers : Pointer → List Partition → PartitionList
pointers fresh [] = []
pointers fresh (p ∷ ps) = fresh ∷ pointers (suc fresh) ps

unfoldable pub allocate : Pointer → List Partition → Heap → Heap
allocate fresh [] h = h
allocate fresh (p ∷ ps) h = allocate (suc fresh) ps (store fresh p h)

-- `if p.MountPoint == "" { p.MountPoint = dir }`
unfoldable pub default_mount : String → Pointer → Heap → Heap
unfolding store
default_mount dir p h =
    if (h p).mount_point == "" then store p (record (h p) { mount_point = dir }) h else h

-- `p.Name = name`
unfoldable pub rename : String → Pointer → Heap → Heap
unfolding store
rename name p h = store p (record (h p) { name = name }) h

-- The same, and `p.Name = name`.
unfoldable pub set_up : String → String → Pointer → Heap → Heap
unfolding default_mount rename
set_up name dir p h = rename name p (default_mount dir p h)

-- A change of the heap.
unfoldable pub modify : (Heap → Heap) → M (Unit {0})
modify f w = (ok tt, with_heap (f w.heap) w)

-- A partition that has to be there.
unfoldable pub require : String → Option Pointer → M Pointer
require text none w = errorf text w
require text (some p) w = (ok p, w)

-- A change of a partition that is there.
unfoldable pub if_found : (Pointer → Heap → Heap) → Option Pointer → Heap → Heap
if_found f none h = h
if_found f (some p) h = f p h

-- The part of `NewResetSpec` on the EFI partition.
unfoldable pub reset_efi : Bool → Option Pointer → M (Unit {0})
unfolding require modify set_up
reset_efi false p = pure tt
reset_efi true p = require "EFI partition not found" p >>= λ efi.
    modify (set_up Constants.efi_part_name Constants.efi_dir efi)

-- The partitions that a reset can do without.
unfoldable pub set_up_optional : ElementalPartitions → Heap → Heap
unfolding if_found set_up
set_up_optional ep h =
    if_found (set_up Constants.persistent_part_name Constants.persistent_dir) ep.persistent
      (if_found (set_up Constants.oem_part_name Constants.oem_dir) ep.oem h)

-- The part that has the state and the recovery partition.
unfoldable pub reset_recovery : ElementalPartitions → Pointer → Pointer → M Pointer
unfolding modify default_mount set_up_optional
reset_recovery ep state recovery =
    modify (λ h. set_up_optional ep (default_mount Constants.recovery_dir recovery h)) >>= λ _.
    pure state

-- The part that has the state partition.
unfoldable pub reset_state : ElementalPartitions → Pointer → M Pointer
unfolding require modify set_up reset_recovery
reset_state ep state = modify (set_up Constants.state_part_name Constants.state_dir state) >>= λ _.
    require "recovery partition not found" ep.recovery >>= reset_recovery ep state

-- The checks and the defaults of the partitions of `NewResetSpec`: the state partition.
unfoldable pub reset_partitions : Bool → ElementalPartitions → M Pointer
unfolding reset_efi require reset_state
reset_partitions efi ep =
    reset_efi efi ep.efi >>= λ _. require "state partition not found" ep.state >>= reset_state ep

module _ (L : Go) (O : Outside) (unmarshal : String → Result InstallState) where
  -- `LoadInstallState` of pkg/types/v1/config.go
  unfoldable pub load_install_state : M InstallState
  unfolding output
  load_install_state =
      output O (
        Call.fs "ReadFile"
          (L.join (Constants.running_state_dir ∷ Constants.install_state_file ∷ []) ∷ []))
      >>= λ text. λ w. (unmarshal text, w)

  -- An error is only logged; the state is nil then.
  unfoldable pub install_state_or_nil : World → Option InstallState × World
  unfolding load_install_state
  install_state_or_nil w =
      let (r, w') = load_install_state w in
      (elim r [ ok st ↦ some st | fail _ ↦ none | panicked ↦ none ], w')

  unfoldable pub host_partitions : Pointer → Option InstallState → M ElementalPartitions
  unfolding ask pointers allocate new_elemental_partitions_from_list
  host_partitions fresh st w =
      let (r, w') = ask O Call.all_partitions w in
      let h = allocate fresh r.partitions w'.heap in
      elim r.err [
        | some _ ↦ errorf "could not read host partitions" w'
        | none ↦ (
          ok (new_elemental_partitions_from_list h (pointers fresh r.partitions) st),
          with_heap h w',
        )
      ]

  -- The image that replaces the one of a partition, if there is the partition.
  unfoldable pub transition_image : Heap → Option Pointer → ImageState → Image
  unfolding cos_file
  transition_image h none st = no_image
  transition_image h (some p) st = record {
    file = cos_file L (h p).mount_point Constants.transition_img_file;
    label = st.label;
    size = Constants.img_size;
    fs = st.fs;
    source = some new_empty_src;
    mount_point = Constants.transition_dir;
    loop_device = "";
  }

  unfoldable pub passive_image : Heap → Option Pointer → ImageState → Image → Image
  unfolding cos_file
  passive_image h none st active = no_image
  passive_image h (some p) st active = record no_image {
    file = cos_file L (h p).mount_point Constants.passive_img_file;
    label = st.label;
    source = some (new_file_src active.file);
    fs = active.fs;
  }

  -- The part of `NewUpgradeSpec` that has the partitions.
  unfoldable pub upgrade_spec_from :
      Option InstallState → ElementalPartitions → Heap → UpgradeSpec × Heap
  unfolding get_active_passive_and_recovery_state default_mount if_found transition_image
      passive_image
  upgrade_spec_from st ep h =
      let (active_state, passive_state, recovery_state) =
        get_active_passive_and_recovery_state st in
      let h1 = if_found (default_mount Constants.recovery_dir) ep.recovery h in
      let h2 = if_found (default_mount Constants.state_dir) ep.state h1 in
      let h3 = if_found (default_mount Constants.persistent_dir) ep.persistent h2 in
      let active = transition_image h2 ep.state active_state in
      (
        record {
          recovery_upgrade = false;
          active = active;
          recovery = transition_image h1 ep.recovery recovery_state;
          grub_def_entry = "";
          passive = passive_image h2 ep.state passive_state active;
          partitions = ep;
          state = st;
        },
        h3,
      )

  unfoldable pub upgrade_with : Option InstallState → ElementalPartitions → M UpgradeSpec
  unfolding upgrade_spec_from
  upgrade_with st ep w = let (u, h) = upgrade_spec_from st ep w.heap in (ok u, with_heap h w)

  -- `NewUpgradeSpec`
  unfoldable pub new_upgrade_spec : Pointer → M UpgradeSpec
  unfolding install_state_or_nil host_partitions upgrade_with
  new_upgrade_spec fresh w =
      let (st, w1) = install_state_or_nil w in (host_partitions fresh st >>= upgrade_with st) w1

  -- The specification, with the state partition.
  unfoldable pub reset_spec_of :
      Bool → Option InstallState → ElementalPartitions → Partition → ImageSource → ResetSpec
  unfolding cos_file get_active_passive_and_recovery_state
  reset_spec_of efi st ep state source =
      let (active_state, passive_state, _) = get_active_passive_and_recovery_state st in
      let active_file = cos_file L state.mount_point Constants.active_img_file in
      record {
        format_persistent = false;
        format_oem = false;
        grub_def_entry = Constants.grub_def_entry;
        active = record {
          file = active_file;
          label = active_state.label;
          size = Constants.img_size;
          fs = active_state.fs;
          source = some source;
          mount_point = Constants.active_dir;
          loop_device = "";
        };
        passive = record no_image {
          file = cos_file L state.mount_point Constants.passive_img_file;
          label = passive_state.label;
          source = some (new_file_src active_file);
          fs = active_state.fs;
        };
        partitions = ep;
        target = state.disk;
        efi = efi;
        grub_conf = Constants.grub_conf;
        state = st;
        disable_boot_entry = false;
      }

  -- The source of a reset: the image of the recovery system, if it is there.
  unfoldable pub reset_source : World → ImageSource × World
  unfolding exists cos_file
  reset_source w =
      let file = cos_file L Constants.running_state_dir Constants.recovery_img_file in
      let (there, w') = exists O file w in (if there then new_file_src file else new_empty_src, w')

  -- The parts of `NewResetSpec` that have the state partition, and all partitions.
  unfoldable pub reset_with :
      Bool → Option InstallState → ElementalPartitions → Pointer → M ResetSpec
  unfolding reset_source reset_spec_of
  reset_with efi st ep state w =
      let (source, w') = reset_source w in (ok (reset_spec_of efi st ep (w.heap state) source), w')

  unfoldable pub reset_among : Bool → Option InstallState → ElementalPartitions → M ResetSpec
  unfolding reset_partitions reset_with
  reset_among efi st ep = reset_partitions efi ep >>= reset_with efi st ep

  unfoldable pub reset_on_host : Pointer → M ResetSpec
  unfolding exists install_state_or_nil host_partitions reset_among
  reset_on_host fresh w =
      let (efi, w1) = exists O Constants.efi_device w in
      let (st, w2) = install_state_or_nil w1 in (host_partitions fresh st >>= reset_among efi st) w2

  -- `NewResetSpec`
  unfoldable pub new_reset_spec : Pointer → M ResetSpec
  unfolding booted_from reset_on_host
  new_reset_spec fresh w =
      let (recovery, w1) = booted_from O L Constants.recovery_img_file w in
      let spec = reset_on_host fresh w1 in
      if recovery then spec else errorf "reset can only be called from the recovery system" w1
