-- ===== src/Lib.antt =====
-- elemental-cli installs, upgrades and resets a system from images. This library models the parts of
-- it that decide what happens to the disk, and states what makes them correct.
--
-- Paths are from the repository's root. The values:
--   Errors: Go's `error`, the errors of pkg/error, and the exit status of cmd/root.go.
--   ImageSource, InstallState, Spec: the data of pkg/types/v1/common.go and pkg/types/v1/config.go,
--     with the `Sanitize` methods of the specifications (Spec, and what they accept in Spec/Install
--     and Spec/Upgrade).
--   Partitions: `Partition`, `PartitionList` and `ElementalPartitions` of pkg/types/v1/config.go: the
--     search by name or label (Partitions/Lookup), `PartitionsByInstallOrder`
--     (Partitions/InstallOrder) and `PartitionsByMountPoint` (Partitions/MountOrder).
-- The actions and their tools:
--   CleanStack: the clean-up jobs of pkg/utils/cleanstack.go, which every action runs in the end.
--   Machine: the calls of interfaces and libraries that the code makes, and the monad of functions
--     that make them.
--   Chroot: pkg/utils/chroot.go, on the calls of the mounter and of the operating system.
--   Efi: pkg/efi/manager.go, and `CreateBootEntry` of pkg/utils/grub.go.
--   Golang: the functions of Go's standard library on texts, a parameter.
--   Partitioner: pkg/partitioner/parted.go and mkfs.go; Partitioner/Disk is disk.go, and
--     Partitioner/Space the space on a disk.
--   Devices: the functions of pkg/utils/common.go and fs.go that the actions use; Devices/Tries is
--     about the wait for a device.
--   Elemental: pkg/elemental/elemental.go, its images in Elemental/Images and Elemental/Deploy.
--   Action: pkg/action. A run is a script that pushes jobs on the stack and is followed by `Cleanup`
--     (Action/Install, Action/Reset, Action/Upgrade); Action/State is the install state that it writes
--     (Action/Written), Action/Labels the GRUB variables of pkg/types/v1/grub.go. Action/Jobs, Action/InstallRun,
--     Action/ResetRun and Action/UpgradeRun are about the jobs of a run.
--   Files: `FindFileWithPrefix` of pkg/utils/common.go and `FindKernelInitrd` of
--     pkg/elemental/elemental.go; Files/Search is what they find.
--   Config: the specifications of pkg/config/config.go, that of an installation (Config/Install), and
--     those of an upgrade and a reset from the host (Config/Host); Config/Found
--     is about the partitions that the host lists, Config/Mounts about their mount points, and
--     Config/Ready and Config/Reset about the two specifications.
--   RunStage: pkg/utils/runstage.go; RunStage/Jobs is the same as a list of jobs.
--   Layout: pkg/cloudinit/layout_plugin.go; Layout/Untouched is about a layout that is there already.
--   Walk: `WalkDirFs` of pkg/utils/fs.go, and the entries that it visits (Walk/Visits).
--   Grub: `InstallEFI` of pkg/utils/grub.go and `IdentifySourceSystem` of pkg/utils/common.go; Grub/Seekers
--     and Grub/Systems are about their parts, Grub/Found about what is there when they return.
--   TempDirs: `GetTempDir` and `CosignVerify` of pkg/utils/common.go.
--   Live: pkg/live, the boot loader of an ISO; Action/BuildIso is pkg/action/build-iso.go, and
--     Action/IsoRun is about its run.
--   Platform: pkg/types/v1/platform.go, and `Config.Sanitize` of pkg/types/v1/config.go.
--   Vhd: pkg/utils/vhd.go, the geometry in Vhd/Geometry and the footer in Vhd/Footer.
--   Flags: cmd/flags.go; Commands: `install`, `upgrade` and `reset` of cmd.
-- Base holds the shared names: tests on numbers and texts, lists, sorting, and maps with text keys.
-- Tests runs the definitions on data and applies the theorems to it.
--
-- A pointer to a partition is a number, and a heap gives the partition behind it, since the code
-- compares and shares the pointers; partitions in a list are not nil. A method that changes its
-- receiver returns the new one. What runs outside of the repository is `Outside`: its reply to a call is
-- any function of the calls before. go-multierror and the EFI variables of go-efilib are records of
-- operations (`Multierror`, `Variables`), the first with the documented law of `Append`. The texts of
-- errors are kept up to the parts that `fmt` inserts. The map of boot entries is a list, which fixes
-- the order in which Go ranges over it. Only `Cleanup` has fuel, which is the count of the jobs, since
-- each round takes one. Loops that try again have their number of tries. A function of
-- the repository that is not modelled counts as one call, under its name (`DoEFIEntries`, `TempDir`,
-- `GetPartitionFS`, `GetSource`, `LoadEnvFile`, `CalcFileChecksum`), and in the actions so do `RunStage`,
-- `InstallEFI` and `CosignVerify`. What lies below a directory that is walked is a tree, which does
-- not change meanwhile. A struct that an error leaves changed is not kept, since no caller reads it.
--
-- Not modelled: the other commands, configuration files (cmd/config), the interfaces that `NewConfig`
-- fills, the cloud-init runner, HTTP, logging, and the YAML of the install state, which is a parameter.
pub mod Base
pub mod Constants
pub mod Errors
pub mod CleanStack
pub mod ImageSource
pub mod InstallState
pub mod Partitions
pub mod Spec
pub mod Machine
pub mod Golang
pub mod Partitioner
pub mod Devices
pub mod Elemental
pub mod Action
pub mod Chroot
pub mod Efi
pub mod Config
pub mod Files
pub mod Layout
pub mod Live
pub mod RunStage
pub mod Vhd
pub mod Platform
pub mod Tests
pub mod Walk
pub mod Grub
pub mod Flags
pub mod Commands
pub mod TempDirs
