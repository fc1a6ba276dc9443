-- ===== src/Live.antt =====
-- pkg/live: the boot loader of a live ISO, and the options of xorriso for it.
use elemental_cli.Base.{
  String, ◌<>◌, Bool, ◌||◌, Option, none, some, List, [], ◌∷◌, ◌==◌, string_eq, if◌then◌else◌,
}
use elemental_cli.Constants
use elemental_cli.Errors.{single, plain}
use elemental_cli.Golang.{Go}
use elemental_cli.ImageSource.{ImageSource}
use elemental_cli.Machine.{Call, Outside, Proc, M, ok, fail, panicked, perform, return_err, ◌then◌}
use elemental_cli.Chroot.{mkdir_all, run_callback, new_chroot}
use elemental_cli.Devices.{copy_file, concat_files}

-- `LiveISO` of pkg/types/v1/config.go; the elements of its lists are pointers, which may be nil.
pub record LiveIso : Type 0 where
  pub rootfs : List (Option ImageSource)
  pub uefi : List (Option ImageSource)
  pub image : List (Option ImageSource)
  pub label : String
  pub grub_entry : String
  pub bootloader_in_rootfs : Bool
  pub firmware : String

abbrev pub efi_boot_path : String
efi_boot_path = "/EFI/BOOT"

abbrev pub grub_prefix_dir : String
grub_prefix_dir = "/boot/grub2"

abbrev pub iso_loader_path : String
iso_loader_path = "/boot/x86_64/loader"

-- `grubEfiCfg`
grub_efi_cfg : String
grub_efi_cfg =
    "search --no-floppy --file --set=root /boot/kernel\nset prefix=($root)/boot/grub2"
    <> "\nconfigfile $prefix/grub.cfg"

-- `grubCfgTemplate`: what stands before, between and after its two arguments.
grub_cfg_head : String
grub_cfg_head =
    "search --no-floppy --file --set=root /boot/kernel\n" <> "\tset default=0\n"
    <> "\tset timeout=10\n" <> "\tset timeout_style=menu\n" <> "\tset linux=linux\n"
    <> "\tset initrd=initrd\n"
    <> "\tif [ \"${grub_cpu}\" = \"x86_64\" -o \"${grub_cpu}\" = \"i386\" -o \"${grub_cpu}\""
    <> " = \"arm64\" ];then\n" <> "\t\tif [ \"${grub_platform}\" = \"efi\" ]; then\n"
    <> "\t\t\tif [ \"${grub_cpu}\" != \"arm64\" ]; then\n" <> "\t\t\t\tset linux=linuxefi\n"
    <> "\t\t\t\tset initrd=initrdefi\n" <> "\t\t\tfi\n" <> "\t\tfi\n" <> "\tfi\n"
    <> "\tif [ \"${grub_platform}\" = \"efi\" ]; then\n"
    <> "\t\techo \"Please press 't' to show the boot menu on this console\"\n" <> "\tfi\n" <> "\n"
    <> "\tmenuentry \""

grub_cfg_menu : String
grub_cfg_menu =
    "\" --class os --unrestricted {\n" <> "\t\techo Loading kernel...\n"
    <> "\t\t$linux ($root)/boot/kernel cdroot root=live:CDLABEL="

grub_cfg_tail : String
grub_cfg_tail =
    " rd.live.dir=/ rd.live.squashimg=rootfs.squashfs console=tty1 console=ttyS0"
    <> " rd.cos.disable cos.setup=/run/initramfs/live/iso-config\n"
    <> "\t\techo Loading initrd...\n" <> "\t\t$initrd ($root)/boot/initrd\n"
    <> "\t}                                                                               \n"
    <> "\t\t\t\t\t\t\t\t\t\t\t\t\t\t\t\t\t\t\t\t\t\n"
    <> "\tif [ \"${grub_platform}\" = \"efi\" ]; then                                        "
    <> " \n"
    <> "\t\thiddenentry \"Text mode\" --hotkey \"t\" {                                      \n"
    <> "\t\t\tset textmode=true                                                       \n"
    <> "\t\t\tterminal_output console                                                 \n"
    <> "\t\t}                                                                           \n"
    <> "\tfi"

-- `XorrisoBooloaderArgs`
unfoldable pub xorriso_bootloader_args : (root efi_img firmware : String) → List String
xorriso_bootloader_args root efi_img firmware =
    if firmware == Constants.efi
    then "-append_partition" ∷ "2" ∷ "0xef" ∷ efi_img ∷ "-boot_image" ∷ "any"
      ∷ "cat_path=/boot/boot.catalog" ∷ "-boot_image" ∷ "any" ∷ "cat_hidden=on" ∷ "-boot_image"
      ∷ "any" ∷ "efi_path=--interval:appended_partition_2:all::" ∷ "-boot_image" ∷ "any"
      ∷ "platform_id=0xef" ∷ "-boot_image" ∷ "any" ∷ "appended_part_as=gpt" ∷ "-boot_image" ∷ "any"
      ∷ "partition_offset=16" ∷ []
    else if firmware == Constants.bios
    then "-boot_image"
      ∷ "grub"
      ∷ "bin_path=/boot/x86_64/loader/eltorito.img"
      ∷ "-boot_image"
      ∷ "grub"
      ∷ ("grub2_mbr=" <> root <> "//boot/x86_64/loader/boot_hybrid.img")
      ∷ "-boot_image"
      ∷ "grub"
      ∷ "grub2_boot_info=on"
      ∷ "-boot_image"
      ∷ "any"
      ∷ "partition_offset=16"
      ∷ "-boot_image"
      ∷ "any"
      ∷ "cat_path=/boot/boot.catalog"
      ∷ "-boot_image"
      ∷ "any"
      ∷ "cat_hidden=on"
      ∷ "-boot_image"
      ∷ "any"
      ∷ "boot_info_table=on"
      ∷ "-boot_image"
      ∷ "any"
      ∷ "platform_id=0x00"
      ∷ []
    else []

-- `LiveBootloader`: `PrepareEFI` and `PrepareISO`.
pub record LiveBootloader : Type 0 where
  pub prepare_efi : (root_dir uefi_dir : String) → Proc
  pub prepare_iso : (root_dir iso_dir : String) → Proc

module _ (L : Go) (O : Outside) where
  unfoldable write_text : String → String → Proc
  unfolding perform
  write_text path content = perform O (Call.fs "WriteFile" (path ∷ content ∷ []))

  -- `copyEfiFiles`
  unfoldable pub copy_efi_files : (uefi_dir shim_img mok_manager grub_img efi_img : String) → Proc
  unfolding copy_file
  copy_efi_files uefi_dir shim_img mok_manager grub_img efi_img =
      copy_file O L shim_img (L.join (uefi_dir ∷ efi_boot_path ∷ efi_img ∷ []))
      then copy_file O L grub_img (L.join (uefi_dir ∷ efi_boot_path ∷ []))
      then copy_file O L mok_manager (L.join (uefi_dir ∷ efi_boot_path ∷ []))

  -- The files for an architecture.
  unfoldable pub copy_for_arch : (arch root_dir uefi_dir : String) → Proc
  unfolding copy_efi_files
  copy_for_arch arch root_dir uefi_dir =
      if arch == "amd64" || arch == "x86_64"
      then copy_efi_files uefi_dir (L.join (root_dir ∷ "/usr/share/efi/x86_64" ∷ "shim.efi" ∷ []))
          (L.join (root_dir ∷ "/usr/share/efi/x86_64" ∷ "MokManager.efi" ∷ []))
          (L.join (root_dir ∷ "/usr/share/grub2/x86_64-efi/grub.efi" ∷ [])) "bootx64.efi"
      else if arch == "arm64"
      then copy_efi_files uefi_dir (L.join (root_dir ∷ "/usr/share/efi/aarch64" ∷ "shim.efi" ∷ []))
          (L.join (root_dir ∷ "/usr/share/efi/aarch64" ∷ "MokManager.efi" ∷ []))
          (L.join (root_dir ∷ "/usr/share/grub2/arm64-efi/grub.efi" ∷ [])) "bootaa64.efi"
      else return_err (some (single (plain ("Not supported architecture: " <> arch))))

  -- `GreenLiveBootLoader.PrepareEFI`; `arch` is that of the platform.
  unfoldable pub green_prepare_efi : (arch root_dir uefi_dir : String) → Proc
  unfolding mkdir_all copy_for_arch write_text grub_efi_cfg
  green_prepare_efi arch root_dir uefi_dir =
      mkdir_all O (L.join (uefi_dir ∷ efi_boot_path ∷ []))
      then copy_for_arch arch root_dir uefi_dir
      then write_text (L.join (uefi_dir ∷ efi_boot_path ∷ "grub.cfg" ∷ [])) grub_efi_cfg

  -- `grubModules`
  abbrev grub_modules : List String
  grub_modules =
      "ext2" ∷ "iso9660" ∷ "linux" ∷ "echo" ∷ "configfile" ∷ "search_label" ∷ "search_fs_file"
      ∷ "search" ∷ "search_fs_uuid" ∷ "ls" ∷ "normal" ∷ "gzio" ∷ "png" ∷ "fat" ∷ "gettext" ∷ "font"
      ∷ "minicmd" ∷ "gfxterm" ∷ "gfxmenu" ∷ "all_video" ∷ "xfs" ∷ "btrfs" ∷ "lvm" ∷ "luks"
      ∷ "gcry_rijndael" ∷ "gcry_sha256" ∷ "gcry_sha512" ∷ "crypto" ∷ "cryptodisk" ∷ "test" ∷ "true"
      ∷ "loadenv" ∷ "part_gpt" ∷ "part_msdos" ∷ "biosdisk" ∷ "vga" ∷ "vbe" ∷ "chain" ∷ "boot" ∷ []

  -- `BuildEltoritoImg`: the path of the image. `Run` and `RunCallback` use one environment.
  unfoldable pub build_eltorito_img : String → M String
  unfolding new_chroot run_callback concat_files perform
  build_eltorito_img root_dir w =
      let bin_dir : String = "/usr/share/grub2/i386-pc" in
      let img = bin_dir <> "/core.img" in
      let eltorito = bin_dir <> "/eltorito.img" in
      let args =
        "-O" ∷ "i386-pc" ∷ "-o" ∷ img ∷ "-p" ∷ grub_prefix_dir ∷ "-d" ∷ bin_dir ∷ grub_modules in
      let (e1, c, w1) =
        run_callback O (new_chroot root_dir) (perform O (Call.run "grub2-mkimage" args)) w in
      let (e2, _, w2) =
        run_callback O c (concat_files O L ((bin_dir <> "/cdboot.img") ∷ img ∷ []) eltorito) w1 in
      elim e1 [
        | some x ↦ (fail x, w1)
        | none ↦ elim e2 [ some x ↦ (fail x, w2) | none ↦ (ok eltorito, w2) ]
      ]

  -- The loop on the loaders.
  unfoldable copy_loaders : (root_dir image_dir : String) → List String → Proc
  unfolding copy_file
  copy_loaders root_dir image_dir [] = return_err none
  copy_loaders root_dir image_dir (f ∷ fs) =
      copy_file O L (L.join (root_dir ∷ f ∷ [])) (L.join (image_dir ∷ iso_loader_path ∷ []))
      then copy_loaders root_dir image_dir fs

  -- The loaders of an ISO for BIOS.
  unfoldable pub prepare_bios : (root_dir image_dir : String) → Proc
  unfolding build_eltorito_img mkdir_all copy_loaders
  prepare_bios root_dir image_dir w =
      let (r, w') = build_eltorito_img root_dir w in
      elim r [
        | fail e ↦ (some e, w')
        | panicked ↦ (none, w')
        | ok eltorito ↦
            (mkdir_all O (L.join (image_dir ∷ iso_loader_path ∷ []))
                then copy_loaders root_dir image_dir (
                    eltorito ∷ "/usr/share/grub2/i386-pc/boot_hybrid.img"
                    ∷ "/usr/share/syslinux/isolinux.bin" ∷ "/usr/share/syslinux/menu.c32"
                    ∷ "/usr/share/syslinux/chain.c32" ∷ "/usr/share/syslinux/mboot.c32" ∷ []))
              w'
      ]

  -- `GreenLiveBootLoader.PrepareISO`
  unfoldable pub green_prepare_iso : LiveIso → (arch root_dir image_dir : String) → Proc
  unfolding mkdir_all prepare_bios write_text green_prepare_efi grub_cfg_head grub_cfg_menu
      grub_cfg_tail
  green_prepare_iso spec arch root_dir image_dir =
      mkdir_all O (L.join (image_dir ∷ grub_prefix_dir ∷ []))
      then (if spec.firmware == Constants.bios
          then prepare_bios root_dir image_dir
          else return_err none)
      then write_text (L.join (image_dir ∷ grub_prefix_dir ∷ "grub.cfg" ∷ []))
          (grub_cfg_head <> spec.grub_entry <> grub_cfg_menu <> spec.label <> grub_cfg_tail)
      then (if spec.firmware == Constants.efi
          then green_prepare_efi arch root_dir image_dir
          else return_err none)

  -- `NewGreenLiveBootLoader`
  unfoldable pub green_live_boot_loader : String → LiveIso → LiveBootloader
  unfolding green_prepare_efi green_prepare_iso
  green_live_boot_loader arch spec = record {
    prepare_efi = green_prepare_efi arch;
    prepare_iso = green_prepare_iso spec arch;
  }
