-- ===== src/Platform/RoundTrip.antt =====
-- A platform is read back from its text.
use elemental_cli.Base.{
  ◌≡◌, refl, ◌∙◌, String, ◌<>◌, Bool, true, ◌&&◌, ◌||◌, none, some, [], arith, Option-cases, ◌==◌,
  nat_eq, string_eq, if◌then◌else◌, ℕ, leb, ℕ_discrete, Bool-cases, inl, inr, ◌⊎◌,
}
use elemental_cli.Errors.{Err}
use elemental_cli.Platform.{
  Result, ok, fail, Platform, PlatformConfig, lower_equals, arch_to_golang_arch,
  golang_arch_to_arch, platform_of, new_platform, new_platform_from_arch, to_string, parse_platform,
  updated, unmarshal_yaml, set_arch, set_default, with_platform, sanitize_config,
}
use Prim.Native.Char.{code}

-- A letter or a digit of ASCII, and a name of such characters only.
abbrev pub is_word_char : ℕ → Bool
is_word_char n = leb b'a' n && leb n b'z' || leb b'A' n && leb n b'Z' || leb b'0' n && leb n b'9'

abbrev pub is_simple : String → Bool
is_simple String.[] = true
is_simple (String.◌∷◌ c s) = is_word_char (code c) && is_simple s

-- What the documentation of go-containerregistry says of `os/arch`.
abbrev pub ReadsNames : (String → Result (String × String)) → Type 0
ReadsNames registry_parse =
    (os arch : String)
    → is_simple os ≡ true
    → is_simple arch ≡ true
    → registry_parse (os <> "/" <> arch) ≡ ok (os, arch)

-- The platforms that `NewPlatform` makes.
new_platform_cases :
    (os arch : String) {p : Platform}
    → new_platform os arch ≡ ok p
    → (p ≡ record { os = os; arch = "x86_64"; golang_arch = "amd64" })
      ⊎ (p ≡ record { os = os; arch = "arm64"; golang_arch = "arm64" })
unfolding new_platform platform_of arch_to_golang_arch golang_arch_to_arch
new_platform_cases os arch e =
    elim (Bool-cases (lower_equals arch "amd64" || lower_equals arch "x86_64")) [
      | inl intel ↦ inl (ground arith)
      | inr other ↦ inr (ground arith)
    ]

-- The architectures of these platforms are read as themselves.
new_platform-x86 :
    (os : String)
    → new_platform os "amd64" ≡ ok (record { os = os; arch = "x86_64"; golang_arch = "amd64" })
unfolding new_platform lower_equals ℕ_discrete
new_platform-x86 os = refl

new_platform-arm :
    (os : String)
    → new_platform os "arm64" ≡ ok (record { os = os; arch = "arm64"; golang_arch = "arm64" })
unfolding new_platform lower_equals ℕ_discrete
new_platform-arm os = refl

amd64_simple : is_simple "amd64" ≡ true
unfolding ℕ_discrete
amd64_simple = refl

arm64_simple : is_simple "arm64" ≡ true
unfolding ℕ_discrete
arm64_simple = refl

module _ (registry_parse : String → Result (String × String))
    (reads : ReadsNames registry_parse) where
  parse_platform-to_string :
      (os arch : String) {p : Platform}
      → is_simple os ≡ true
      → new_platform os arch ≡ ok p
      → parse_platform registry_parse (to_string (some p)) ≡ ok p
  unfolding parse_platform to_string
  parse_platform-to_string os arch s e = elim (new_platform_cases os arch e) [
    | inl x86 ↦ rw (x86, reads os "amd64" s amd64_simple) (new_platform-x86 os)
    | inr arm ↦ rw (arm, reads os "arm64" s arm64_simple) (new_platform-arm os)
  ]

  -- A platform that `NewPlatform` has made of a name of an operating system in letters and digits, and
  -- of any accepted spelling of an architecture, is read back by `UnmarshalYAML` from the text that
  -- `MarshalYAML` makes of it, whatever platform was there before.
  pub unmarshal_yaml-to_string :
      (q : Platform) (os arch : String) {p : Platform}
      → is_simple os ≡ true
      → new_platform os arch ≡ ok p
      → unmarshal_yaml registry_parse q (to_string (some p)) ≡ (none, p)
  unfolding unmarshal_yaml updated
  unmarshal_yaml-to_string q os arch s e = rw (parse_platform-to_string os arch s e) refl

with_platform_lem :
    (c : PlatformConfig) (r : Result Platform) {c' : PlatformConfig}
    → with_platform c r ≡ (none, c')
    → (p : Platform) × (r ≡ ok p) × (c' ≡ record c { platform = some p })
unfolding with_platform
with_platform_lem c (ok p) e = (p, refl, ground arith)
with_platform_lem c (fail x) e = absurd (ground arith)

-- What has been done about the architecture that is configured.
abbrev Chosen : PlatformConfig → PlatformConfig → Type 0
Chosen c c' =
    ((c.arch ≡ "")
      ⊎ ((p : Platform) × (new_platform_from_arch c.arch ≡ ok p) × (c'.platform ≡ some p)))
    × (c'.squash_fs_compression_config ≡ c.squash_fs_compression_config)

set_arch_lem : (c : PlatformConfig) {c' : PlatformConfig} → set_arch c ≡ (none, c') → Chosen c c'
unfolding set_arch
set_arch_lem c {c'} e = elim (Bool-cases (c.arch == "")) [
  | inl empty ↦ (inl (ground arith), ground arith)
  | inr given ↦
      let (p, found, same) =
        with_platform_lem c (new_platform_from_arch c.arch) {c' = c'} (ground arith) in
      (inr (p, found, rw same refl), rw same refl)
]

set_default_lem :
    (goarch : String) (r : Err × PlatformConfig) {c' : PlatformConfig}
    → set_default goarch r ≡ (none, c')
    → (r.0 ≡ none)
      × ((p : Platform) × (c'.platform ≡ some p)
          × ((r.1.platform ≡ none) ⊎ (r.1.platform ≡ some p)))
      × (c'.squash_fs_compression_config ≡ r.1.squash_fs_compression_config)
unfolding set_default
set_default_lem goarch (some x, c) {c'} e = absurd (ground arith)
set_default_lem goarch (none, c) {c'} e = elim (Option-cases c.platform) [
  | inl nil ↦
      let (p, _, same) =
        with_platform_lem c (new_platform_from_arch goarch) {c' = c'} (ground arith) in
      (refl, (p, rw same refl, inl nil), rw same refl)
  | inr (p, found) ↦ (refl, (p, ground arith, inr found), ground arith)
]

same_platform :
    (c c1 : PlatformConfig) (p : Platform)
    → Chosen c c1
    → (c1.platform ≡ none) ⊎ (c1.platform ≡ some p)
    → (c.arch ≡ "") ⊎ (new_platform_from_arch c.arch ≡ ok p)
same_platform c c1 p (inl empty, _) o = inl empty
same_platform c c1 p (inr (q, found, there), _) (inl nil) = absurd (ground arith)
same_platform c c1 p (inr (q, found, there), _) (inr same) = inr (ground arith)

-- The compression options that are left.
abbrev pub uncompressed : PlatformConfig → PlatformConfig
uncompressed c =
    if c.squash_fs_no_compression then record c { squash_fs_compression_config = [] } else c

uncompressed-arch : (c : PlatformConfig) → (uncompressed c).arch ≡ c.arch
uncompressed-arch c = ground arith

-- If `Config.Sanitize` returns nil, there is a platform after it, which is that of the architecture
-- if one is configured, and the compression options are as they were, or none at all if there is to
-- be no compression.
pub sanitize_config_lem :
    (goarch : String) (c : PlatformConfig) {c' : PlatformConfig}
    → sanitize_config goarch c ≡ (none, c')
    → (p : Platform) × (c'.platform ≡ some p)
      × ((c.arch ≡ "") ⊎ (new_platform_from_arch c.arch ≡ ok p))
      × (c'.squash_fs_compression_config
          ≡ (if c.squash_fs_no_compression then [] else c.squash_fs_compression_config))
unfolding sanitize_config
sanitize_config_lem goarch c {c'} e =
    let r = set_arch (uncompressed c) in
    let (nil, (p, there, o), same) = set_default_lem goarch r e in
    let chosen = set_arch_lem (uncompressed c) {c' = r.1} (λ i. (nil i, r.1)) in
    (
      p,
      there,
      rw (uncompressed-arch c) at (same_platform (uncompressed c) r.1 p chosen o),
      same ∙ (chosen.1 ∙ ground arith),
    )
