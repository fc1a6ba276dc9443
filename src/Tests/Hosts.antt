-- ===== src/Tests/Hosts.antt =====
-- pkg/config and pkg/utils/runstage.go on a host with EFI and four partitions.
use elemental_cli.Base.{
  ◌≡◌, ◌↔◌, ◌⊎◌, refl, ap, ◌∙◌, String, ◌<>◌, true, false, none, some, [], ◌∷◌, ◌++◌, map, arith,
  ◌==◌, nat_eq, string_eq, ℕ_discrete, if◌then◌else◌,
}
use elemental_cli.Errors.{single, plain}
use elemental_cli.Golang.{Go}
use elemental_cli.ImageSource.{new_file_src, is_empty}
use elemental_cli.InstallState.{InstallState}
use elemental_cli.CleanStack.Cleanup.{run_all, join}
use elemental_cli.Partitions.{
  Partition, ElementalPartitions, label_of, Heap, partitions_by_install_order,
}
use elemental_cli.Partitions.InstallOrder.{IsSizedButLast}
use elemental_cli.Machine.{Call, Outside, Result, ok, fail, panicked, ask}
use elemental_cli.Spec.{
  InstallSpec, UpgradeSpec, ResetSpec, returned, sanitize_install, sanitize_upgrade,
}
use elemental_cli.Devices.{exists, partition_by_label}
use elemental_cli.Config.{new_install_spec}
use elemental_cli.Config.Install.{
  with_source, IsPartitioned, described, defaults, new_install_spec-Accepted,
}
use elemental_cli.Config.Found.{AreFound, best_of, is_listed, listed}
use elemental_cli.Config.Host.{
  allocate, pointers, install_state_or_nil, new_upgrade_spec, new_reset_spec,
}
use elemental_cli.Config.Ready.{with_upgrade_source, new_upgrade_spec-sanitize_iff}
use elemental_cli.Config.Reset.{asked, IsForHost, new_reset_spec-IsForHost}
use elemental_cli.RunStage.{Uris, setup_paths, run_stage}
use elemental_cli.RunStage.Jobs.{path_job, stage_jobs, run_stage_lem}
use elemental_cli.Layout.{Layout, LayoutPart, layout_plugin}
use elemental_cli.Layout.Untouched.{writes, layout_plugin-OnlyReads}
use elemental_cli.Platform
use elemental_cli.Platform.{
  Platform, PlatformConfig, new_platform, unmarshal_yaml, to_string, sanitize_config,
  new_platform_from_arch,
}
use Prim.Native.Char.{code}
use Prim.Native.String.append
use elemental_cli.Platform.RoundTrip.{
  is_simple, ReadsNames, unmarshal_yaml-to_string, sanitize_config_lem,
}
use elemental_cli.Tests.Stacks.{multierror}
use elemental_cli.Tests.Layouts.{upgrade_spec}
use elemental_cli.Tests.Actions.{reset_spec}
use elemental_cli.Tests.Roots.{start}
use elemental_cli.Tests.Disks.{go}

abbrev on_disk : String → String → Partition
on_disk name label = record {
  name = name;
  filesystem_label = label;
  size = 64;
  fs = "ext4";
  flags = [];
  mount_point = "";
  path = "";
  disk = "/dev/sda";
}

-- The recovery system runs, and nothing is mounted.
abbrev host : Outside
host cs c = record {
  out = "recovery.img";
  flag = false;
  err = none;
  partitions =
      on_disk "efi" "COS_GRUB"
      ∷ on_disk "state" "COS_STATE"
      ∷ on_disk "recovery" "COS_RECOVERY"
      ∷ on_disk "oem" "COS_OEM"
      ∷ [];
}

abbrev library : Go
library = record go { contains_text = λ s part. true }

abbrev unmarshal : String → Result InstallState
unmarshal text = fail (single (plain "not a state"))

new_install_spec-Accepted_example :
    let (i, w') = new_install_spec library host 10 start in
    (i' : InstallSpec) × (h : Heap) × (sanitize_install 14
        (with_source (new_file_src "/system.img") i)
        w'.heap
      ≡ returned none (i', h))
    × (partitions_by_install_order h i'.partitions i'.extra_partitions []
        ≡ 14 ∷ 10 ∷ 11 ∷ 12 ∷ 13 ∷ [])
    × IsPartitioned true i'.partitions 14 10 11 12 13
    × (map (λ p. described (h p)) (14 ∷ 10 ∷ 11 ∷ 12 ∷ 13 ∷ []) ≡ defaults true)
    × IsSizedButLast h (14 ∷ 10 ∷ 11 ∷ 12 ∷ 13 ∷ [])
unfolding string_eq is_empty exists
new_install_spec-Accepted_example =
    new_install_spec-Accepted library host 10 start (new_file_src "/system.img") refl

-- The value of a function that returns one.
abbrev value : {A : Type 0} → A → Result A → A
value default (ok a) = a
value default (fail _) = default
value default panicked = default

abbrev to_upgrade : UpgradeSpec
to_upgrade = value upgrade_spec (new_upgrade_spec library host unmarshal 10 start).0

new_upgrade_spec-sanitize_iff_example :
    ((u : UpgradeSpec) × (sanitize_upgrade
          (with_upgrade_source true (new_file_src "/new.img") to_upgrade)
          (new_upgrade_spec library host unmarshal 10 start).1.heap
        ≡ returned none u))
    ↔ (is_listed "recovery" "COS_RECOVERY" (listed host start) ≡ true)
unfolding new_upgrade_spec install_state_or_nil label_of string_eq is_empty
new_upgrade_spec-sanitize_iff_example =
    new_upgrade_spec-sanitize_iff library host unmarshal 10 start true (new_file_src "/new.img")
      refl refl

abbrev to_reset : ResetSpec
to_reset = value reset_spec (new_reset_spec library host unmarshal 10 start).0

new_reset_spec-IsForHost_example :
    let (efi, st, w1) = asked library host unmarshal start in
    let find = best_of (allocate 10 (listed host w1) w1.heap) (pointers 10 (listed host w1)) in
    (ep : ElementalPartitions) × AreFound find st ep
    × IsForHost library efi ep to_reset (new_reset_spec library host unmarshal 10 start).1.heap
unfolding new_reset_spec string_eq ℕ_discrete
new_reset_spec-IsForHost_example = new_reset_spec-IsForHost library host unmarshal 10 start refl

abbrev uris : Uris
uris = record { scheme = λ uri. some ""; is_named = λ uri. false; is_type_error = λ e. false }

run_stage_lem_example :
    let (r, w1) = ask host (Call.fs "ReadFile" ("/proc/cmdline" ∷ [])) start in
    let all_paths = ("/oem" ∷ []) ++ setup_paths uris library host (library.split r.out " ") in
    let (es, w2) =
      run_all
        (stage_jobs uris library host (path_job uris library host) all_paths r.out "initramfs")
        w1 in
    run_stage uris library host multierror "initramfs" true ("/oem" ∷ []) start
    ≡ (join (r.err ∷ es), w2)
run_stage_lem_example =
    run_stage_lem uris library host multierror "initramfs" true ("/oem" ∷ []) start

-- A parser of platforms that reads up to the first slash, and stops at a colon.
before_slash : String → String
unfolding ℕ_discrete
before_slash String.[] = ""
before_slash (String.◌∷◌ c s) = if code c == b'/' then "" else String.◌∷◌ c (before_slash s)

after_slash : String → String
after_slash String.[] = ""
after_slash (String.◌∷◌ c s) = if code c == b'/' then s else after_slash s

abbrev parse : String → Platform.Result (String × String)
parse text = Platform.ok (before_slash text, after_slash text)

slash_append : (arch : String) → "/" <> arch ≡ String.◌∷◌ "/" arch
slash_append arch = append.cons "/" "" arch ∙ ap (λ s. String.◌∷◌ "/" s) (append.nil arch)

before_slash_lem : (os arch : String) → is_simple os ≡ true → before_slash (os <> "/" <> arch) ≡ os
unfolding before_slash
before_slash_lem String.[] arch h = rw (append.nil ("/" <> arch), slash_append arch) refl
before_slash_lem (String.◌∷◌ c s) arch h =
    rw (append.cons c s ("/" <> arch)) (ground (arith, before_slash_lem s arch))

after_slash_lem : (os arch : String) → is_simple os ≡ true → after_slash (os <> "/" <> arch) ≡ arch
unfolding after_slash ℕ_discrete
after_slash_lem String.[] arch h = rw (append.nil ("/" <> arch), slash_append arch) refl
after_slash_lem (String.◌∷◌ c s) arch h =
    rw (append.cons c s ("/" <> arch)) (ground (arith, after_slash_lem s arch))

parse-ReadsNames : ReadsNames parse
parse-ReadsNames os arch s t =
    λ i. Platform.ok (before_slash_lem os arch s i, after_slash_lem os arch s i)

abbrev intel : Platform
intel = record { os = "linux"; arch = "x86_64"; golang_arch = "amd64" }

abbrev arm : Platform
arm = record { os = "linux"; arch = "arm64"; golang_arch = "arm64" }

unmarshal_yaml-to_string_example : unmarshal_yaml parse arm (to_string (some intel)) ≡ (none, intel)
unfolding new_platform ℕ_discrete
unmarshal_yaml-to_string_example =
    unmarshal_yaml-to_string parse parse-ReadsNames arm "linux" "X86_64" refl refl

abbrev before : PlatformConfig
before = record {
  squash_fs_no_compression = true;
  squash_fs_compression_config = "-comp" ∷ [];
  arch = "arm64";
  platform = none;
}

abbrev after : PlatformConfig
after = record before { squash_fs_compression_config = []; platform = some arm }

sanitize_config_lem_example :
    (p : Platform) × (some arm ≡ some p)
    × ((before.arch ≡ "") ⊎ (new_platform_from_arch "arm64" ≡ Platform.ok p))
    × (after.squash_fs_compression_config ≡ [])
unfolding sanitize_config string_eq ℕ_discrete
sanitize_config_lem_example = sanitize_config_lem "amd64" before {c' = after} refl

abbrev layout_part : String → LayoutPart
layout_part label = record { fs_label = label; size = 64; p_label = "part"; file_system = "" }

abbrev layout : Layout
layout = record {
  device = some (record { label = ""; path = "/dev/sda" });
  expand = none;
  parts = layout_part "COS_OEM" ∷ layout_part "COS_STATE" ∷ [];
}

layout_plugin-OnlyReads_example :
    let (r, w') = layout_plugin multierror library host true true layout start in
    (writes w'.calls ≡ writes start.calls)
    × (r ≡ (layout_plugin multierror library host true true (record layout { parts = [] }) start).0)
unfolding partition_by_label string_eq
layout_plugin-OnlyReads_example =
    layout_plugin-OnlyReads host library multierror true true layout start refl (
      (λ cs. (refl, (on_disk "oem" "COS_OEM", refl))),
      ((λ cs. (refl, (on_disk "state" "COS_STATE", refl))), tt),
    )
