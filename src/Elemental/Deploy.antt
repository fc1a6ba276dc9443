-- ===== src/Elemental/Deploy.antt =====
-- The end of the deployment in pkg/elemental/elemental.go: images from trees and copies of images.
use elemental_cli.Base.{
  ℕ, suc, ◌+◌, String, ◌<>◌, Bool, true, false, not, ◌&&◌, ◌||◌, none, some, List, [], ◌∷◌, ◌==◌,
  string_eq, nat_eq, if◌then◌else◌,
}
use elemental_cli.Constants
use elemental_cli.Errors.{Err, single, plain}
use elemental_cli.Golang.{Go, decimal}
use elemental_cli.ImageSource.{ImageSource, is_file, new_file_src}
use elemental_cli.Machine.{
  Call, Outside, World, Proc, M, ok, fail, panicked, ask, perform, pure, lift, ◌>>=◌, ◌then◌,
  return_err,
}
use elemental_cli.Chroot.{mkdir_all}
use elemental_cli.Spec.{Image}
use elemental_cli.Devices.{get_device_by_label, copy_file, create_squash_fs, exists}
use elemental_cli.Elemental.Images.{
  Config, img_overhead, working_img_dir, mount_image, create_file_system_image, deploy_img_tree,
  dir_size_mb, fill_image,
}

module _ (L : Go) (O : Outside) where
  -- The size of an image: that of its tree and the overhead, if it is not given.
  with_size : String → Image → M Image
  unfolding dir_size_mb
  with_size root img =
      if img.size == 0
      then (dir_size_mb L O root >>= λ size. pure (record img { size = size + img_overhead }))
      else pure img

  -- The file system image that is mounted and filled.
  mount_and_fill : String → Image → M Image
  unfolding mount_image fill_image
  mount_and_fill root img = mount_image L O img ("rw" ∷ []) >>= λ img'. λ w.
      let (e, img'', w') = fill_image L O root img' w in
      elim e [ none ↦ (ok img'', w') | some x ↦ (fail x, w') ]

  squash : Config → String → Image → M Image
  unfolding create_squash_fs
  squash c root img =
      lift (create_squash_fs O L root img.file ("-b" ∷ "1024k" ∷ c.squash_fs_options)) >>= λ _.
      pure img

  -- `CreateImgFromTree` without the cleaner that it defers.
  unfoldable pub create_img : Config → String → Image → M Image
  unfolding squash with_size create_file_system_image mount_and_fill
  create_img c root img =
      if img.fs == Constants.squash_fs
      then squash c root img
      else (with_size root img >>= λ img'.
          lift (create_file_system_image L O img') >>= λ _. mount_and_fill root img')

  -- `CreateImgFromTree`: the cleaner runs in any case, and its error counts if there is no other.
  unfoldable pub create_img_from_tree : Config → String → Image → Proc → M Image
  unfolding create_img
  create_img_from_tree c root img cleaner w =
      let (r, w') = create_img c root img w in
      let (e, w'') = cleaner w' in
      (
        elim r [
          | ok img' ↦ elim e [ none ↦ ok img' | some x ↦ fail x ]
          | fail x ↦ fail x
          | panicked ↦ panicked
        ],
        w'',
      )

  set_label : Image → Proc
  unfolding perform
  set_label img =
      if not (img.fs == Constants.squash_fs) && not (img.label == "")
      then perform O (Call.run "tune2fs" ("-L" ∷ img.label ∷ img.file ∷ []))
      else return_err none

  copy_image : Image → ImageSource → Proc
  unfolding is_file mkdir_all copy_file set_label
  copy_image img src =
      if is_file src
      then (mkdir_all O (L.dir img.file) then copy_file O L src.source img.file then set_label img)
      else return_err
          (some (single (plain "Copying a file image requires an image source of file type")))

  -- `CopyFileImg`
  unfoldable pub copy_file_img : Image → M (Unit {0})
  unfolding copy_image
  copy_file_img img w = elim img.source [
    | none ↦ (panicked, w)
    | some src ↦ lift (copy_image img src) w
  ]

  -- `DeployImage`
  unfoldable pub deploy_image : Config → Image → M Image
  unfolding deploy_img_tree create_img_from_tree
  deploy_image c img = deploy_img_tree L O c img working_img_dir >>= λ cleaner.
      create_img_from_tree c working_img_dir img cleaner

  -- `CopyCloudConfig`, from the file of a number on.
  unfoldable pub copy_cloud_config : ℕ → List String → Proc
  unfolding perform decimal
  copy_cloud_config i [] = return_err none
  copy_cloud_config i (ci ∷ cis) =
      let custom_config = L.join ("/run/cos/oem" ∷ ("9" <> decimal i <> "_custom.yaml") ∷ []) in
      perform O (Call.library "utils.GetSource" (ci ∷ custom_config ∷ []))
      then perform O (Call.fs "Chmod" (custom_config ∷ "0644" ∷ []))
      then copy_cloud_config (suc i) cis

  -- `CheckActiveDeployment`
  unfoldable pub check_active_deployment : List String → World → Bool × World
  unfolding get_device_by_label
  check_active_deployment [] w = (false, w)
  check_active_deployment (label ∷ labels) w =
      let (r, w') = get_device_by_label O 1 label w in
      let rest = check_active_deployment labels w' in
      elim r [
        | ok device ↦ if device == "" then rest else (true, w')
        | fail _ ↦ rest
        | panicked ↦ rest
      ]

  -- `DeactivateDevices`
  unfoldable pub deactivate_devices : Proc
  unfolding perform
  deactivate_devices = perform O (
      Call.run "blkdeactivate"
        ("--lvmoptions" ∷ "retry,wholevg" ∷ "--dmoptions" ∷ "force,retry" ∷ "--errors" ∷ []))

  relabel : String → String → String → Proc
  unfolding perform
  relabel root policy context =
      if root == "/" || root == ""
      then perform O (
          Call.run "setfiles" (
            "-c" ∷ policy ∷ "-e" ∷ "/dev" ∷ "-e" ∷ "/proc" ∷ "-e" ∷ "/sys" ∷ "-F" ∷ context ∷ "/"
            ∷ []))
      else perform O
          (Call.run "setfiles" ("-c" ∷ policy ∷ "-F" ∷ "-r" ∷ root ∷ context ∷ root ∷ []))

  -- `SelinuxRelabel`, whose error counts on demand.
  unfoldable pub selinux_relabel : String → Bool → Proc
  unfolding ask exists relabel
  selinux_relabel root raise_error w =
      let targeted : String = "/etc/selinux/targeted" in
      let dir = L.join (root ∷ (targeted <> "/policy") ∷ []) in
      let context = L.join (root ∷ (targeted <> "/contexts/files/file_contexts") ∷ []) in
      let (policy, w1) = ask O (Call.library "utils.FindFileWithPrefix" (dir ∷ "policy." ∷ [])) w in
      let (there, w2) = exists O context w1 in
      let (command, w3) = ask O (Call.library "Runner.CommandExists" ("setfiles" ∷ [])) w2 in
      let (e, w4) = relabel root policy.out context w3 in
      elim policy.err [
        | some _ ↦ (none, w2)
        | none ↦
            if there
            then (if command.flag
                then (if raise_error then (e, w4) else (none, w4))
                else (none, w3))
            else (none, w2)
      ]

  -- What cleans up after `UpdateSourceFormISO`.
  clean_iso : String → String → Proc
  unfolding perform
  clean_iso dir mnt = perform O (Call.unmount mnt) then perform O (Call.fs "RemoveAll" (dir ∷ []))

  -- The image with the source in the ISO that is mounted.
  source_in_iso : String → String → Image → World → Err × Proc × Image × World
  unfolding exists clean_iso
  source_in_iso dir mnt img w =
      let file = L.join (mnt ∷ "rootfs.squashfs" ∷ []) in
      let (there, w') = exists O file w in
      if there
      then (none, clean_iso dir mnt, record img { source = some (new_file_src file) }, w')
      else (some (single (plain "squashfs image not found in ISO")), clean_iso dir mnt, img, w')

  -- `UpdateSourceFormISO`: the error, what cleans up, and the image.
  unfoldable pub update_source_from_iso : String → Image → World → Err × Proc × Image × World
  unfolding ask perform mkdir_all source_in_iso
  update_source_from_iso iso img w =
      let (tmp, w1) = ask O (Call.library "utils.TempDir" ("" ∷ "elemental" ∷ [])) w in
      let file = L.join (tmp.out ∷ "elemental.iso" ∷ []) in
      let mnt = L.join (tmp.out ∷ "iso" ∷ []) in
      let (e, w2) =
        (perform O (Call.library "utils.GetSource" (iso ∷ file ∷ []))
            then mkdir_all O mnt
            then perform O (Call.mount file mnt "auto" ("loop" ∷ [])))
          w1 in
      let clean_dir : Proc = perform O (Call.fs "RemoveAll" (tmp.out ∷ [])) in
      elim tmp.err [
        | some x ↦ (some x, return_err none, img, w1)
        | none ↦ elim e [
          | some x ↦ (some x, clean_dir, img, w2)
          | none ↦ source_in_iso tmp.out mnt img w2
        ]
      ]
