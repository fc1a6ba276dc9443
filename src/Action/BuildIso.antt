-- ===== src/Action/BuildIso.antt =====
-- pkg/action/build-iso.go: the image of a live ISO. The codes are those of pkg/error/exit-codes.go.
use elemental_cli.Base.{
  ℕ, ◌+◌, ◌-◌, ◌*◌, ◌/◌, ◌%◌, ltb, String, ◌<>◌, Bool, Option, none, some, List, [], ◌∷◌, ◌++◌,
  ◌==◌, string_eq, if◌then◌else◌,
}
use elemental_cli.Constants
use elemental_cli.Errors.{Err, Multierror, single, plain}
use elemental_cli.Golang.{Go}
use elemental_cli.CleanStack.{CleanStack, new_clean_stack}
use elemental_cli.ImageSource.{ImageSource}
use elemental_cli.Machine.{
  Call, Outside, World, Proc, M, Result, ok, fail, panicked, perform, output, pure, lift,
  return_err, ◌>>=◌, ◌then◌,
}
use elemental_cli.Chroot.{mkdir_all}
use elemental_cli.Devices.{copy_file, create_dir_structure, create_squash_fs, exists}
use elemental_cli.Files.{FileInfo, find_kernel_initrd, read_dir}
use elemental_cli.Live.{LiveIso, LiveBootloader, xorriso_bootloader_args}
use elemental_cli.Partitioner.{uint_size}
use elemental_cli.Elemental.Images
use elemental_cli.Elemental.Images.{create_file_system_image, dump_source, remove_path}
use elemental_cli.Action.{
  End, Script, ◌and_then◌, push_job, plain_step, step, coded, as_m, done, finish,
}

-- The fields of `BuildConfig` that the action reads. `today` is the date, as `Format` prints it.
pub record BuildConfig : Type 0 where
  pub config : Images.Config
  pub name : String
  pub out_dir : String
  pub date : Bool
  pub today : String

-- The first source that is nil is refused.
check_sources : String → List (Option ImageSource) → Err
check_sources text [] = none
check_sources text (none ∷ ss) = some (single (plain text))
check_sources text (some _ ∷ ss) = check_sources text ss

first_error : Err → Err → Err
first_error none e = e
first_error (some x) e = some x

-- `LiveISO.Sanitize` of pkg/types/v1/config.go
unfoldable pub sanitize_iso : LiveIso → Err
unfolding check_sources first_error
sanitize_iso i = first_error (check_sources "wrong name of source package for rootfs" i.rootfs) (
    first_error (check_sources "wrong name of source package for uefi" i.uefi)
      (check_sources "wrong name of source package for image" i.image))

-- The quotient of an `int64`, as its bits, by a positive number: it is rounded towards 0.
quotient : ℕ → ℕ → ℕ
quotient n k =
    if ltb n 9223372036854775808 then n / k else (uint_size - (uint_size - n) / k) % uint_size

-- The size in MiB of the EFI image, from an `int64` in bytes, aligned to the next 4 MiB, as their bits.
unfoldable pub efi_size_mb : ℕ → ℕ
unfolding quotient
efi_size_mb size =
    quotient ((quotient (size % uint_size) 4194304 * 4194304 + 4194304) % uint_size) 1048576

-- `isoFileName`
unfoldable pub iso_file_name : BuildConfig → String
iso_file_name cfg = if cfg.date then cfg.name <> "." <> cfg.today <> ".iso" else cfg.name <> ".iso"

-- What a run returns whose deferred `Cleanup` has ended with an error, or `none` for a panic.
unfoldable pub dropped : Result (Unit {0}) → Option Err → Option Err
dropped r none = none
dropped (ok _) (some _) = some none
dropped (fail e) (some _) = some (some e)
dropped panicked (some _) = none

-- The deferred `Cleanup`, of which only the effects remain.
unfoldable pub iso_finish : Multierror → Result (Unit {0}) × CleanStack World × World → End
unfolding finish dropped
iso_finish E (r, c, w) = let (e, c', w') = finish E (r, c, w) in (dropped r e, c', w')

-- `entries` reads the reply to `ReadDir`.
module _ (E : Multierror) (L : Go) (O : Outside) (entries : String → List FileInfo)
    (cfg : BuildConfig) where
  -- `applySources`
  unfoldable pub apply_sources : String → List (Option ImageSource) → M (Unit {0})
  unfolding dump_source coded
  apply_sources target [] = pure tt
  apply_sources target (none ∷ ss) = λ w. (panicked, w)
  apply_sources target (some src ∷ ss) =
      coded E 18 (as_m (dump_source L O cfg.config target src)) >>= λ _. apply_sources target ss

  -- `prepareISORoot`
  unfoldable pub prepare_iso_root : (iso_dir root_dir : String) → M (Unit {0})
  unfolding find_kernel_initrd coded mkdir_all copy_file create_squash_fs
  prepare_iso_root iso_dir root_dir =
      coded E 28 (find_kernel_initrd L O entries root_dir) >>= λ (kernel, initrd).
      coded E 15 (as_m (mkdir_all O (L.join (iso_dir ∷ "boot" ∷ [])))) >>= λ _.
      coded E 13 (as_m (copy_file O L kernel (L.join (iso_dir ∷ "/boot/kernel" ∷ [])))) >>= λ _.
      coded E 13 (as_m (copy_file O L initrd (L.join (iso_dir ∷ "/boot/initrd" ∷ [])))) >>= λ _.
      coded E 21 (
        as_m (
          create_squash_fs O L root_dir (L.join (iso_dir ∷ "rootfs.squashfs" ∷ []))
            ("-b" ∷ "1024k" ∷ cfg.config.squash_fs_options)))

  -- The loop of `createEFI` on the files.
  unfoldable copy_into : (root img : String) → List FileInfo → Proc
  unfolding perform
  copy_into root img [] = return_err none
  copy_into root img (f ∷ fs) =
      perform O (Call.run "mcopy" ("-s" ∷ "-i" ∷ img ∷ L.join (root ∷ f.name ∷ []) ∷ "::" ∷ []))
      then copy_into root img fs

  -- `DirSize` of pkg/utils/fs.go; the reply of the walk holds the sum of the sizes.
  unfoldable dir_size : String → M ℕ
  unfolding output
  dir_size root =
      output O (Call.library "vfs.Walk" (root ∷ [])) >>= λ out. pure (L.parse_uint out).0

  -- `createEFI`
  unfoldable pub create_efi : (root img : String) → M (Unit {0})
  unfolding dir_size efi_size_mb create_file_system_image read_dir copy_into
  create_efi root img = dir_size root >>= λ size.
      lift (
        create_file_system_image L O (record {
          file = img;
          label = Constants.efi_label;
          size = efi_size_mb size;
          fs = Constants.efi_fs;
          source = none;
          mount_point = "";
          loop_device = "";
        }))
      >>= λ _. read_dir L O entries root >>= λ files. lift (copy_into root img files)

  -- An ISO that is there already is removed.
  unfoldable remove_old : String → M (Unit {0})
  unfolding exists perform coded
  remove_old file w =
      let (there, w') = exists O file w in
      if there then coded E 69 (as_m (perform O (Call.fs "Remove" (file ∷ [])))) w' else (ok tt, w')

  unfoldable output_file : String
  unfolding iso_file_name
  output_file =
      if cfg.out_dir == "" then iso_file_name cfg else L.join (cfg.out_dir ∷ iso_file_name cfg ∷ [])

  -- `burnISO`; `CalcFileChecksum` is one call.
  unfoldable pub burn_iso : LiveIso → (root efi_img : String) → M (Unit {0})
  unfolding remove_old output_file perform output coded xorriso_bootloader_args iso_file_name
  burn_iso spec root efi_img =
      let file = output_file in
      remove_old file >>= λ _.
      coded E 11 (
        as_m (
          perform O (
            Call.run "xorriso" (
              ("-volid" ∷ spec.label ∷ "-padding" ∷ "0" ∷ "-outdev" ∷ file ∷ "-map" ∷ root ∷ "/"
                ∷ "-chmod" ∷ "0755" ∷ "--" ∷ [])
              ++ xorriso_bootloader_args root efi_img spec.firmware))))
      >>= λ _. coded E 70 (output O (Call.library "utils.CalcFileChecksum" (file ∷ []))) >>= λ sum.
          coded E 16 (
            as_m (
              perform O (
                Call.fs "WriteFile"
                  ((file <> ".sha256") ∷ (sum <> " " <> iso_file_name cfg <> "\n") ∷ []))))

  -- The directories: the temporary one, and those of the root, the EFI and the ISO tree in it.
  unfoldable pub temp_iso_dir : M String
  unfolding output
  temp_iso_dir = output O (Call.library "utils.TempDir" ("" ∷ "elemental-iso" ∷ []))

  -- The directories below the temporary one, and that of the output.
  unfoldable pub sub_dirs_script : String → Script String
  unfolding step mkdir_all done
  sub_dirs_script tmp = step E 15 (as_m (mkdir_all O (L.join (tmp ∷ "rootfs" ∷ [])))) and_then λ _.
      step E 15 (as_m (mkdir_all O (L.join (tmp ∷ "uefi" ∷ [])))) and_then λ _.
      step E 15 (as_m (mkdir_all O (L.join (tmp ∷ "iso" ∷ [])))) and_then λ _.
      step E 15 (as_m (if cfg.out_dir == "" then return_err none else mkdir_all O cfg.out_dir))
      and_then λ _. done tmp

  unfoldable pub dirs_script : Script String
  unfolding temp_iso_dir step push_job remove_path sub_dirs_script
  dirs_script = step E 17 temp_iso_dir and_then λ tmp.
      push_job (remove_path L O tmp) and_then λ _. sub_dirs_script tmp

  module _ (live : LiveBootloader) (spec : LiveIso) where
    -- The EFI tree.
    unfoldable pub efi_script : (root uefi : String) → Script (Unit {0})
    unfolding plain_step step apply_sources
    efi_script root uefi =
        step E 12
          (as_m (if spec.bootloader_in_rootfs then live.prepare_efi root uefi else return_err none))
        and_then λ _. plain_step (apply_sources uefi spec.uefi)

    -- The root tree, and the EFI tree if the firmware is EFI.
    unfoldable pub trees_script : (root uefi : String) → Script (Unit {0})
    unfolding plain_step step apply_sources create_dir_structure done efi_script
    trees_script root uefi = plain_step (apply_sources root spec.rootfs) and_then λ _.
        step E 15 (as_m (create_dir_structure O L root)) and_then λ _.
        (if spec.firmware == Constants.efi then efi_script root uefi else done tt)

    -- The ISO tree, and the image of it.
    unfoldable pub burn_script : (tmp root uefi iso : String) → Script (Unit {0})
    unfolding plain_step step apply_sources prepare_iso_root create_efi burn_iso
    burn_script tmp root uefi iso =
        step E 16
          (as_m (if spec.bootloader_in_rootfs then live.prepare_iso root iso else return_err none))
        and_then λ _. plain_step (apply_sources iso spec.image) and_then λ _.
            plain_step (prepare_iso_root iso root) and_then λ _.
            plain_step (
              if spec.firmware == Constants.efi
              then create_efi uefi (L.join (tmp ∷ "uefi.img" ∷ []))
              else pure tt)
            and_then λ _. plain_step (burn_iso spec iso (L.join (tmp ∷ "uefi.img" ∷ [])))

    -- `ISORun` after the directories have been made.
    unfoldable pub after_dirs : String → Script (Unit {0})
    unfolding trees_script burn_script
    after_dirs tmp =
        let root = L.join (tmp ∷ "rootfs" ∷ []) in
        let uefi = L.join (tmp ∷ "uefi" ∷ []) in
        trees_script root uefi and_then λ _. burn_script tmp root uefi (L.join (tmp ∷ "iso" ∷ []))

    -- `ISORun`, up to its return.
    unfoldable pub iso_script : Script (Unit {0})
    unfolding dirs_script after_dirs
    iso_script = dirs_script and_then after_dirs

    -- `ISORun`: its result has no name, so what the deferred function assigns to `err` does not
    -- change what is returned.
    unfoldable pub iso_run : World → End
    unfolding iso_script iso_finish
    iso_run w = iso_finish E (iso_script new_clean_stack w)
