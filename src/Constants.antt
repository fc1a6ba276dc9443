-- ===== src/Constants.antt =====
-- pkg/constants/constants.go and the constants of pkg/types/v1/config.go that the model uses.
use elemental_cli.Base.{ℕ, String}

abbrev pub gpt : String
gpt = "gpt"

abbrev pub bios : String
bios = "bios"

abbrev pub msdos : String
msdos = "msdos"

abbrev pub efi : String
efi = "efi"

abbrev pub squash_fs : String
squash_fs = "squashfs"

abbrev pub linux_fs : String
linux_fs = "ext4"

abbrev pub linux_img_fs : String
linux_img_fs = "ext2"

abbrev pub efi_fs : String
efi_fs = "vfat"

abbrev pub bios_part_name : String
bios_part_name = "bios"

abbrev pub efi_part_name : String
efi_part_name = "efi"

abbrev pub oem_part_name : String
oem_part_name = "oem"

abbrev pub recovery_part_name : String
recovery_part_name = "recovery"

abbrev pub state_part_name : String
state_part_name = "state"

abbrev pub persistent_part_name : String
persistent_part_name = "persistent"

abbrev pub efi_label : String
efi_label = "COS_GRUB"

abbrev pub oem_label : String
oem_label = "COS_OEM"

abbrev pub recovery_label : String
recovery_label = "COS_RECOVERY"

abbrev pub state_label : String
state_label = "COS_STATE"

abbrev pub persistent_label : String
persistent_label = "COS_PERSISTENT"

abbrev pub efi_size : ℕ
efi_size = 64

abbrev pub bios_size : ℕ
bios_size = 1

abbrev pub efi_dir : String
efi_dir = "/run/cos/efi"

-- `esp`, `bios` and `boot`: the partition flags.
abbrev pub esp_flag : String
esp_flag = "esp"

abbrev pub bios_flag : String
bios_flag = "bios_grub"

abbrev pub boot_flag : String
boot_flag = "boot"

abbrev pub oem_size : ℕ
oem_size = 64

abbrev pub state_size : ℕ
state_size = 8192

abbrev pub recovery_size : ℕ
recovery_size = 4096

abbrev pub persistent_size : ℕ
persistent_size = 0

abbrev pub img_size : ℕ
img_size = 0

abbrev pub active_label : String
active_label = "COS_ACTIVE"

abbrev pub passive_label : String
passive_label = "COS_PASSIVE"

abbrev pub system_label : String
system_label = "COS_SYSTEM"

abbrev pub active_img_name : String
active_img_name = "active"

abbrev pub passive_img_name : String
passive_img_name = "passive"

abbrev pub recovery_img_name : String
recovery_img_name = "recovery"

abbrev pub active_img_file : String
active_img_file = "active.img"

abbrev pub passive_img_file : String
passive_img_file = "passive.img"

abbrev pub recovery_img_file : String
recovery_img_file = "recovery.img"

abbrev pub transition_img_file : String
transition_img_file = "transition.img"

abbrev pub recovery_dir : String
recovery_dir = "/run/cos/recovery"

abbrev pub state_dir : String
state_dir = "/run/cos/state"

abbrev pub oem_dir : String
oem_dir = "/run/cos/oem"

abbrev pub persistent_dir : String
persistent_dir = "/run/cos/persistent"

abbrev pub active_dir : String
active_dir = "/run/cos/active"

abbrev pub transition_dir : String
transition_dir = "/run/cos/transition"

abbrev pub running_state_dir : String
running_state_dir = "/run/initramfs/cos-state"

abbrev pub install_state_file : String
install_state_file = "state.yaml"

abbrev pub iso_base_tree : String
iso_base_tree = "/run/rootfsbase"

abbrev pub efi_device : String
efi_device = "/sys/firmware/efi"

abbrev pub grub_conf : String
grub_conf = "/etc/cos/grub.cfg"

abbrev pub grub_def_entry : String
grub_def_entry = "cOS"

abbrev pub arch_arm64 : String
arch_arm64 = "arm64"

abbrev pub fedora : String
fedora = "fedora"

abbrev pub ubuntu : String
ubuntu = "ubuntu"

abbrev pub suse : String
suse = "suse"
