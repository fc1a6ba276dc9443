-- ===== src/Platform.antt =====
-- pkg/types/v1/platform.go, and `Config.Sanitize` of pkg/types/v1/config.go.
pub mod RoundTrip
use elemental_cli.Base.{
  ℕ, ◌+◌, String, ◌<>◌, Bool, true, false, ◌&&◌, not, Option, none, some, List, [], ◌∷◌, ltb, leb,
  ◌==◌, nat_eq, string_eq, if◌then◌else◌,
}
use elemental_cli.Errors.{Err, Error, single, plain}
use Prim.Native.Char.{code}

-- A value, or an error that is not nil.
pub data Result (A : Type 0) : Type 0 where
  ok : A → Result A
  fail : Error → Result A

pub record Platform : Type 0 where
  pub os : String
  pub arch : String
  pub golang_arch : String

-- `strings.ToLower`, on one code point; none beyond ASCII has a lower case among the letters of the
-- names below.
unfoldable pub lower : ℕ → ℕ
lower c = if leb b'A' c && leb c b'Z' then c + 32 else c

-- `strings.ToLower(s) == t`
unfoldable pub lower_equals : (s t : String) → Bool
unfolding lower
lower_equals String.[] String.[] = true
lower_equals String.[] (String.◌∷◌ d t) = false
lower_equals (String.◌∷◌ c s) String.[] = false
lower_equals (String.◌∷◌ c s) (String.◌∷◌ d t) =
    let rest = lower_equals s t in if lower (code c) == code d then rest else false

abbrev pub invalid_arch : Error
invalid_arch = single (plain "invalid arch")

-- `archToGolangArch`
unfoldable pub arch_to_golang_arch : String → Result String
unfolding lower_equals
arch_to_golang_arch arch =
    if lower_equals arch "amd64"
    then ok "amd64"
    else if lower_equals arch "x86_64"
    then ok "amd64"
    else if lower_equals arch "arm64"
    then ok "arm64"
    else fail invalid_arch

-- `golangArchToArch`
unfoldable pub golang_arch_to_arch : String → Result String
unfolding lower_equals
golang_arch_to_arch arch =
    if lower_equals arch "x86_64"
    then ok "x86_64"
    else if lower_equals arch "amd64"
    then ok "x86_64"
    else if lower_equals arch "arm64"
    then ok "arm64"
    else fail invalid_arch

unfoldable pub platform_of : String → Result String → Result String → Result Platform
platform_of os (ok golang_arch) (ok arch) =
    ok (record { os = os; arch = arch; golang_arch = golang_arch })
platform_of os (ok golang_arch) (fail e) = fail e
platform_of os (fail e) r = fail e

-- `NewPlatform`
unfoldable pub new_platform : (os arch : String) → Result Platform
unfolding platform_of arch_to_golang_arch golang_arch_to_arch
new_platform os arch = platform_of os (arch_to_golang_arch arch) (golang_arch_to_arch arch)

-- `NewPlatformFromArch`
unfoldable pub new_platform_from_arch : String → Result Platform
unfolding new_platform
new_platform_from_arch = new_platform "linux"

-- `String`; `MarshalYAML` returns it.
unfoldable pub to_string : Option Platform → String
to_string none = ""
to_string (some p) = p.os <> "/" <> p.golang_arch

-- `ParsePlatform` of go-containerregistry: the `OS` and the `Architecture`.
module _ (registry_parse : String → Result (String × String)) where
  unfoldable pub platform_from : Result (String × String) → Result Platform
  unfolding new_platform
  platform_from (ok (os, arch)) = new_platform os arch
  platform_from (fail e) = fail e

  -- `ParsePlatform`
  unfoldable pub parse_platform : String → Result Platform
  unfolding platform_from
  parse_platform text = platform_from (registry_parse text)

  -- `p.updateFrom(parsed)`, unless there is an error. The receiver is not nil.
  unfoldable pub updated : Platform → Result Platform → Err × Platform
  updated p (ok parsed) = (none, parsed)
  updated p (fail e) = (some e, p)

  -- `UnmarshalYAML`, with the platform after it; `CustomUnmarshal` of a text does the same.
  unfoldable pub unmarshal_yaml : Platform → String → Err × Platform
  unfolding updated parse_platform
  unmarshal_yaml p text = updated p (parse_platform text)

-- The fields of `Config` that `Sanitize` reads.
pub record PlatformConfig : Type 0 where
  pub squash_fs_no_compression : Bool
  pub squash_fs_compression_config : List String
  pub arch : String
  pub platform : Option Platform

unfoldable pub with_platform : PlatformConfig → Result Platform → Err × PlatformConfig
with_platform c (ok p) = (none, record c { platform = some p })
with_platform c (fail e) = (some e, c)

unfoldable pub set_arch : PlatformConfig → Err × PlatformConfig
unfolding with_platform new_platform_from_arch
set_arch c = if c.arch == "" then (none, c) else with_platform c (new_platform_from_arch c.arch)

unfoldable pub set_default : String → Err × PlatformConfig → Err × PlatformConfig
unfolding with_platform new_platform_from_arch
set_default goarch (some e, c) = (some e, c)
set_default goarch (none, c) = elim c.platform [
  | some p ↦ (none, c)
  | none ↦ with_platform c (new_platform_from_arch goarch)
]

-- `Config.Sanitize`, with the configuration after it; `goarch` is `runtime.GOARCH`.
unfoldable pub sanitize_config : String → PlatformConfig → Err × PlatformConfig
unfolding set_arch set_default
sanitize_config goarch c = set_default goarch (
    set_arch
      (if c.squash_fs_no_compression then record c { squash_fs_compression_config = [] } else c))
