-- ===== src/Tests/Isos.antt =====
-- The build of an ISO, the search of a kernel, and the footer of a VHD of 1 GiB.
use elemental_cli.Base.{
  ◌≡◌, refl, String, true, false, some, List, [], ◌∷◌, arith, string_eq, ℕ_discrete,
}
use elemental_cli.ImageSource.{new_dir_src}
use elemental_cli.CleanStack.{new_clean_stack}
use elemental_cli.Files.{FileInfo, search_files}
use elemental_cli.Files.Search.{Searched, search_files-Searched}
use elemental_cli.Live.{LiveIso, LiveBootloader, green_live_boot_loader}
use elemental_cli.Action.BuildIso.{BuildConfig, temp_iso_dir, iso_script, iso_run}
use elemental_cli.Action.IsoRun.{own_error, iso_run-DropsErrors}
use elemental_cli.Action.Jobs.{outcome, IsPending}
use elemental_cli.CleanStack.Stack.{stack}
use elemental_cli.CleanStack.Cleanup.{run_all}
use elemental_cli.Elemental.Images.{remove_path}
use elemental_cli.Vhd.{new_vhd_fixed, chs_calculation}
use elemental_cli.Vhd.Geometry.{Covers, counted, chs_calculation-Covers}
use elemental_cli.Vhd.Footer.{IsFooter, new_vhd_fixed-IsFooter}
use elemental_cli.Tests.Stacks.{multierror}
use elemental_cli.Tests.Roots.{start, outside}
use elemental_cli.Tests.Disks.{go}

abbrev boot : List FileInfo
boot =
    record { name = "vmlinuz-link"; is_dir = true; is_symlink = false }
    ∷ record { name = "vmlinuz"; is_dir = false; is_symlink = false }
    ∷ record { name = "initrd"; is_dir = false; is_symlink = true }
    ∷ []

abbrev entries : String → List FileInfo
entries out = boot

search_run :
    (search_files go outside entries "/boot" boot ("Image" ∷ "vmlinuz" ∷ []) start).0 ≡ some "path"
unfolding search_files ℕ_discrete
search_run = refl

search_files-Searched_example :
    Searched go "/boot" boot
      ("Image" ∷ "vmlinuz" ∷ [])
      (search_files go outside entries "/boot" boot ("Image" ∷ "vmlinuz" ∷ []) start).0
search_files-Searched_example =
    search_files-Searched go "/boot" outside entries boot ("Image" ∷ "vmlinuz" ∷ []) start

abbrev build_config : BuildConfig
build_config = record {
  config = record {
    cosign = false;
    platform = "linux/amd64";
    local_image = false;
    squash_fs_options = [];
  };
  name = "elemental";
  out_dir = "";
  date = false;
  today = "20230101";
}

abbrev iso : LiveIso
iso = record {
  rootfs = some (new_dir_src "/rootfs") ∷ [];
  uefi = [];
  image = [];
  label = "COS_LIVE";
  grub_entry = "cOS";
  bootloader_in_rootfs = true;
  firmware = "efi";
}

abbrev loader : LiveBootloader
loader = green_live_boot_loader go outside "amd64" iso

iso_run-DropsErrors_example :
    let (x, c, w) =
      iso_script multierror go outside entries build_config loader iso new_clean_stack start in
    (outcome (iso_run multierror go outside entries build_config loader iso start)
      ≡ (own_error x, (run_all (stack c) w).1))
    × IsPending (remove_path go outside "/work") new_clean_stack c
unfolding temp_iso_dir
iso_run-DropsErrors_example =
    iso_run-DropsErrors multierror go outside entries build_config loader iso start refl

chs_calculation-Covers_example : Covers (counted 2097152) (chs_calculation 2097152)
chs_calculation-Covers_example = chs_calculation-Covers 2097152

chs_run : chs_calculation 2097152 ≡ record { cylinders = 2080; heads = 16; sectors_per_track = 63 }
unfolding chs_calculation
chs_run = refl

new_vhd_fixed-IsFooter_example : IsFooter 1073741824 (new_vhd_fixed 1073741824 1672531200 [])
new_vhd_fixed-IsFooter_example = new_vhd_fixed-IsFooter 1073741824 1672531200 [] (omega arith)
