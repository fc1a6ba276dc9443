-- ===== src/Flags.antt =====
-- The flags of cmd/flags.go that `install`, `upgrade` and `reset` share, and those of `install`.
use elemental_cli.Base.{
  String, ◌<>◌, Bool, true, false, not, ◌&&◌, ◌||◌, none, some, ◌==◌, string_eq, if◌then◌else◌, ◌≡◌,
  ◌⊎◌, Option-cases, inl, inr, arith,
}
use elemental_cli.Constants
use elemental_cli.Errors.{Err, single, plain}

-- A flag that is not set is "" or false.
pub record Flags : Type 0 where
  pub system_uri : String
  pub directory : String
  pub docker_image : String
  pub cosign_key : String
  pub cosign : Bool
  pub reboot : Bool
  pub poweroff : Bool
  pub force_efi : Bool
  pub force_gpt : Bool
  pub firmware : String
  pub part_table : String

abbrev exclusive : String
exclusive =
    "flags docker-image, directory and system are mutually exclusive, please only set one of them"

-- `validateSourceFlags`
unfoldable pub validate_source_flags : Flags → Err
validate_source_flags flags =
    if not (flags.system_uri == "")
      && (not (flags.directory == "") || not (flags.docker_image == ""))
    then some (single (plain exclusive))
    else if not (flags.directory == "") && not (flags.docker_image == "")
    then some (single (plain exclusive))
    else none

-- `validateCosignFlags`
unfoldable pub validate_cosign_flags : Flags → Err
validate_cosign_flags flags =
    if not (flags.cosign_key == "") && not flags.cosign
    then some (single (plain "'cosign-key' requires 'cosign' option to be enabled"))
    else none

-- `validatePowerFlags`
unfoldable pub validate_power_flags : Flags → Err
validate_power_flags flags =
    if flags.reboot && flags.poweroff
    then some (single (plain "'reboot' and 'poweroff' are mutually exclusive options"))
    else none

-- `validateInstallUpgradeFlags`
unfoldable pub validate_install_upgrade_flags : Flags → Err
unfolding validate_source_flags validate_cosign_flags validate_power_flags
validate_install_upgrade_flags flags = elim (validate_source_flags flags) [
  | some e ↦ some e
  | none ↦ elim (validate_cosign_flags flags) [
    | some e ↦ some e
    | none ↦ validate_power_flags flags
  ]
]

-- `adaptDockerImageAndDirectoryFlagsToSystem`
unfoldable pub adapt_docker_image_and_directory_flags_to_system : Flags → Flags
adapt_docker_image_and_directory_flags_to_system flags =
    let docker =
      if flags.docker_image == ""
      then flags
      else record flags { system_uri = "docker:" <> flags.docker_image } in
    if flags.directory == ""
    then docker
    else record docker { system_uri = "dir:" <> flags.directory }

-- `adaptEFIAndGPTFlags`
unfoldable pub adapt_efi_and_gpt_flags : Flags → Flags
adapt_efi_and_gpt_flags flags =
    let efi = if flags.force_efi then record flags { firmware = Constants.efi } else flags in
    if flags.force_gpt then record efi { part_table = Constants.gpt } else efi

-- The source that the flags name.
abbrev source : Flags → String
source flags =
    if not (flags.directory == "")
    then "dir:" <> flags.directory
    else if not (flags.docker_image == "")
    then "docker:" <> flags.docker_image
    else flags.system_uri

validate-none :
    (flags : Flags)
    → validate_install_upgrade_flags flags ≡ none
    → (validate_source_flags flags ≡ none)
      × (validate_cosign_flags flags ≡ none)
      × (validate_power_flags flags ≡ none)
unfolding validate_install_upgrade_flags
validate-none flags h = elim (Option-cases (validate_source_flags flags)) [
  | inr (e, x) ↦ absurd (ground (arith, rw (x, validate_install_upgrade_flags) at h))
  | inl s ↦ elim (Option-cases (validate_cosign_flags flags)) [
    | inr (e, x) ↦ absurd (ground (arith, rw (s, x, validate_install_upgrade_flags) at h))
    | inl c ↦ (s, c, rw (s, c, validate_install_upgrade_flags) at h)
  ]
]

validate_source-IsOne :
    (flags : Flags)
    → validate_source_flags flags ≡ none
    → ((flags.directory ≡ "") ⊎ (flags.docker_image ≡ ""))
      × ((flags.system_uri ≡ "") ⊎ ((flags.directory ≡ "") × (flags.docker_image ≡ "")))
unfolding validate_source_flags
validate_source-IsOne flags h = ground arith

validate_cosign_lem :
    (flags : Flags)
    → validate_cosign_flags flags ≡ none
    → (flags.cosign_key ≡ "") ⊎ (flags.cosign ≡ true)
unfolding validate_cosign_flags
validate_cosign_lem flags h = ground arith

validate_power_lem :
    (flags : Flags)
    → validate_power_flags flags ≡ none
    → (flags.reboot ≡ false) ⊎ (flags.poweroff ≡ false)
unfolding validate_power_flags
validate_power_lem flags h = ground arith

adapt-source :
    (flags : Flags)
    → (adapt_docker_image_and_directory_flags_to_system flags).system_uri ≡ source flags
unfolding adapt_docker_image_and_directory_flags_to_system
adapt-source flags = ground arith

-- If the flags are valid, at most one source is set, the adapted flag of the system is that source, and
-- the flags do not both restart and stop the system, nor have a key without `cosign`.
adapt-validate :
    (flags : Flags)
    → validate_install_upgrade_flags flags ≡ none
    → let adapted = adapt_docker_image_and_directory_flags_to_system flags in
      (adapted.system_uri ≡ source flags)
      × ((flags.directory ≡ "") ⊎ (flags.docker_image ≡ ""))
      × ((flags.system_uri ≡ "") ⊎ ((flags.directory ≡ "") × (flags.docker_image ≡ "")))
      × ((flags.reboot ≡ false) ⊎ (flags.poweroff ≡ false))
      × ((flags.cosign_key ≡ "") ⊎ (flags.cosign ≡ true))
adapt-validate flags h =
    let (sources, cosign, power) = validate-none flags h in
    let (one, system) = validate_source-IsOne flags sources in
    (
      adapt-source flags,
      one,
      system,
      validate_power_lem flags power,
      validate_cosign_lem flags cosign,
    )
