-- ===== src/Elemental/Images.antt =====
-- The images of pkg/elemental/elemental.go: their trees, files and mounts.
use elemental_cli.Base.{
  ℕ, ◌+◌, ◌*◌, ◌/◌, ◌%◌, String, ◌<>◌, Bool, Option, none, some, List, [], ◌∷◌, string_eq, nat_eq,
  if◌then◌else◌,
}
use elemental_cli.Errors.{Err, single, plain}
use elemental_cli.Golang.{Go, decimal}
use elemental_cli.ImageSource.{ImageSource, is_image, is_dir, is_file}
use elemental_cli.Machine.{
  Call, Outside, World, Proc, M, ok, fail, panicked, ask, perform, output, pure, lift, ◌>>=◌,
  ◌then◌, return_err,
}
use elemental_cli.Chroot.{mkdir_all, first}
use elemental_cli.Spec.{Image}
use elemental_cli.Partitioner.{apply_mkfs}
use elemental_cli.Devices.{create_dir_structure, sync_data}

-- The fields of `Config` that decide how an image is made.
pub record Config : Type 0 where
  pub cosign : Bool
  pub platform : String
  pub local_image : Bool
  pub squash_fs_options : List String

abbrev pub img_overhead : ℕ
img_overhead = 256

abbrev pub img_src_dir : String
img_src_dir = "/run/cos/imgsrc"

abbrev pub working_img_dir : String
working_img_dir = "/run/cos/workingtree"

abbrev pub excludes : List String
excludes = "/mnt" ∷ "/proc" ∷ "/sys" ∷ "/dev" ∷ "/tmp" ∷ "/host" ∷ "/run" ∷ []

module _ (L : Go) (O : Outside) where
  -- The file systems of a tree go away in any case.
  unfoldable pub remove_path : String → Proc
  unfolding perform
  remove_path path = perform O (Call.fs "RemoveAll" (path ∷ []))

  -- `MountImage`, with the image, which has its loop device if it is mounted.
  unfoldable pub mount_image : Image → List String → M Image
  unfolding mkdir_all output perform
  mount_image img opts = lift (mkdir_all O img.mount_point) >>= λ _.
      output O (Call.run "losetup" ("--show" ∷ "-f" ∷ img.file ∷ [])) >>= λ out.
      let loop = L.trim_space out in
      λ w.
        let (e, w') = perform O (Call.mount loop img.mount_point "auto" opts) w in
        elim e [
          | none ↦ (ok (record img { loop_device = loop }), w')
          | some x ↦ (fail x, (perform O (Call.run "losetup" ("-d" ∷ loop ∷ [])) w').1)
        ]

  -- `UnmountImage`, with the image.
  unfoldable pub unmount_image : Image → World → Err × Image × World
  unfolding ask perform
  unmount_image img w =
      let (r, w') = ask O (Call.is_likely_not_mount_point img.mount_point) w in
      let (e, w'') = perform O (Call.unmount img.mount_point) w' in
      let (e', w''') = perform O (Call.run "losetup" ("-d" ∷ img.loop_device ∷ [])) w'' in
      if r.flag then (none, img, w') else elim e [
        | some x ↦ (some x, img, w'')
        | none ↦ (e', record img { loop_device = "" }, w''')
      ]

  -- `actImg.Truncate(int64(img.Size * 1024 * 1024))`, and the image file is closed in any case.
  truncate : Image → Proc
  unfolding perform decimal
  truncate img w =
      let size = decimal (img.size * 1048576 % 18446744073709551616) in
      let (e, w') = perform O (Call.fs "File.Truncate" (img.file ∷ size ∷ [])) w in
      let (e', w'') = perform O (Call.fs "File.Close" (img.file ∷ [])) w' in (first e e', w'')

  make_fs : Image → Proc
  unfolding apply_mkfs
  make_fs img w =
      let (r, w') = apply_mkfs L O img.fs img.label [] img.file w in
      (elim r [ ok _ ↦ none | fail e ↦ some e | panicked ↦ none ], w')

  -- Once the file is there, an error removes it.
  removing : String → Err × World → Err × World
  unfolding remove_path
  removing file (none, w) = (none, w)
  removing file (some e, w) = (some e, (remove_path file w).1)

  -- `CreateFileSystemImage`
  unfoldable pub create_file_system_image : Image → Proc
  unfolding mkdir_all perform truncate make_fs removing
  create_file_system_image img =
      mkdir_all O (L.dir img.file) then perform O (Call.fs "Create" (img.file ∷ [])) then λ w.
      removing img.file ((truncate img then make_fs img) w)

  -- A file image is mounted while its content is copied; the error of the unmount is dropped.
  dump_file : String → String → Proc
  unfolding mount_image unmount_image sync_data
  dump_file target file w =
      let img : Image = record {
        file = file;
        label = "";
        size = 0;
        fs = "";
        source = none;
        mount_point = img_src_dir;
        loop_device = "";
      } in
      let (r, w') = mount_image img ("auto" ∷ "ro" ∷ []) w in
      elim r [
        | fail e ↦ (some e, w')
        | panicked ↦ (none, w')
        | ok mounted ↦
            let (e, w'') = sync_data O L img_src_dir target excludes w' in
            (e, (unmount_image mounted w'').2)
      ]

  verify : Config → String → Proc
  unfolding perform
  verify c image =
      if c.cosign
      then perform O (Call.library "utils.CosignVerify" (image ∷ []))
      else return_err none

  -- `DumpSource`; its first result is always nil.
  unfoldable pub dump_source : Config → String → ImageSource → Proc
  unfolding is_image is_dir is_file verify sync_data dump_file mkdir_all perform
  dump_source c target src =
      if is_image src
      then (verify c src.source
          then perform O (
              Call.library "ImageExtractor.ExtractImage" (
                src.source
                ∷ target
                ∷ c.platform
                ∷ (if c.local_image then "true" else "false")
                ∷ [])))
      else if is_dir src
      then sync_data O L src.source target excludes
      else if is_file src
      then (mkdir_all O img_src_dir then dump_file target src.source)
      else return_err (some (single (plain "unknown image source type")))

  -- The cleaner of a tree: the error of the unmount is dropped.
  unfoldable pub clean_tree : String → String → Proc
  unfolding perform remove_path
  clean_tree root tmp w =
      let w' = (perform O (Call.unmount root) w).1 in (remove_path root then remove_path tmp) w'

  -- A step of the deployment of a tree; if it fails, what was made before is undone.
  unfoldable pub undoing : Proc → Proc → Proc
  undoing undo step w =
      let (e, w') = step w in elim e [ none ↦ (none, w') | some x ↦ (some x, (undo w').1) ]

  both : Proc → Proc → Proc
  both p q w = q (p w).1

  -- The tree with the source of the image, or the panic on a source that is nil.
  fill_tree : Config → Option ImageSource → String → Proc → M (Unit {0})
  unfolding dump_source create_dir_structure undoing
  fill_tree c none root undo w = (panicked, w)
  fill_tree c (some src) root undo w =
      lift (undoing undo (dump_source c root src then create_dir_structure O L root)) w

  -- `DeployImgTree`: the cleaner of the tree. The metadata that it also returns is always nil.
  unfoldable pub deploy_img_tree : Config → Image → String → M Proc
  unfolding mkdir_all remove_path perform clean_tree undoing both fill_tree
  deploy_img_tree c img root =
      let tmp = L.trim_ext img.file <> ".imgTree" in
      lift (mkdir_all O tmp) >>= λ _. lift (undoing (remove_path tmp) (mkdir_all O root)) >>= λ _.
      lift (
        undoing (both (remove_path tmp) (remove_path root))
          (perform O (Call.mount tmp root "bind" ("bind" ∷ []))))
      >>= λ _. fill_tree c img.source root (clean_tree root tmp) >>= λ _. pure (clean_tree root tmp)

  -- `DirSizeMB` of pkg/utils/fs.go; the reply of the walk holds the sum of the sizes.
  unfoldable pub dir_size_mb : String → M ℕ
  unfolding ask
  dir_size_mb root w =
      let (r, w') = ask O (Call.library "vfs.Walk" (root ∷ [])) w in
      elim r.err [ some e ↦ (fail e, w') | none ↦ (ok ((L.parse_uint r.out).0 / 1048576 + 1), w') ]

  -- The content of an image that is mounted, and its unmount, whose error counts if there is no other.
  unfoldable pub fill_image : String → Image → World → Err × Image × World
  unfolding sync_data unmount_image
  fill_image root img w =
      let (e, w') = sync_data O L root img.mount_point [] w in
      let (e', img', w'') = unmount_image img w' in (first e e', img', w'')
