-- ===== src/InstallState.antt =====
-- `InstallState`, `PartitionState` and `ImageState` of pkg/types/v1/config.go: what state.yaml holds.
use elemental_cli.Base.{
  ℕ, String, Option, none, some, List, ◌≡◌, refl, Bool-cases, inl, inr, ◌==◌, string_eq,
  if◌then◌else◌,
}
use elemental_cli.Base.Dict.{Dict, lookup, insert, lookup-insert}
use elemental_cli.ImageSource.{ImageSource}

pub record Repository : Type 0 where
  pub name : String
  pub priority : ℕ
  pub uri : String
  pub type : String
  pub arch : String
  pub reference_id : String

-- The two types of metadata that `UnmarshalYAML` tells apart.
pub data SourceMetadata : Type 0 where
  docker_image_meta : (digest : String) (size : ℕ) → SourceMetadata
  channel_image_meta :
      (category name version finger_print : String) (repos : List Repository) → SourceMetadata

pub record ImageState : Type 0 where
  pub source : Option ImageSource
  pub source_metadata : Option SourceMetadata
  pub label : String
  pub fs : String

-- The values of the two maps are pointers, which may be nil.
pub record PartitionState : Type 0 where
  pub fs_label : String
  pub images : Dict (Option ImageState)

pub record InstallState : Type 0 where
  pub date : String
  pub partitions : Dict (Option PartitionState)

flatten_nil {ℓ} : {A : Type ℓ} → Option (Option A) → Option A
flatten_nil none = none
flatten_nil (some none) = none
flatten_nil (some (some a)) = some a

-- `m[k]` of a map of pointers: nil if the key is missing.
unfoldable pub get {ℓ} : {A : Type ℓ} → String → Dict (Option A) → Option A
unfolding flatten_nil lookup
get k d = flatten_nil (lookup k d)

flatten_nil-some {ℓ} : {A : Type ℓ} (v : Option A) → flatten_nil (some v) ≡ v
unfolding flatten_nil
flatten_nil-some none = refl
flatten_nil-some (some a) = refl

pub get-insert {ℓ} :
    {A : Type ℓ} (j k : String) (v : Option A) (d : Dict (Option A))
    → get j (insert k v d) ≡ (if k == j then v else get j d)
unfolding get
get-insert j k v d = elim (Bool-cases (k == j)) [
  | inl same ↦ rw (get, lookup-insert, same) (flatten_nil-some v)
  | inr other ↦ rw (get, lookup-insert, other) refl
]
