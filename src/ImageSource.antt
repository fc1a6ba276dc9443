-- ===== src/ImageSource.antt =====
-- `ImageSource` of pkg/types/v1/common.go.
use elemental_cli.Base.{String, ◌<>◌, Bool, ◌||◌, ◌==◌, string_eq, if◌then◌else◌}

pub record ImageSource : Type 0 where
  pub source : String
  pub src_type : String

abbrev pub oci : String
oci = "oci"

abbrev pub docker : String
docker = "docker"

abbrev pub file : String
file = "file"

abbrev pub dir : String
dir = "dir"

unfoldable pub is_image : ImageSource → Bool
is_image i = i.src_type == oci

unfoldable pub is_dir : ImageSource → Bool
is_dir i = i.src_type == dir

unfoldable pub is_file : ImageSource → Bool
is_file i = i.src_type == file

unfoldable pub is_empty : ImageSource → Bool
is_empty i = i.src_type == "" || i.source == ""

-- `String`
unfoldable pub to_uri : ImageSource → String
unfolding is_empty
to_uri i = if is_empty i then "" else i.src_type <> "://" <> i.source

abbrev pub new_empty_src : ImageSource
new_empty_src = record { source = ""; src_type = "" }

abbrev pub new_docker_src : String → ImageSource
new_docker_src src = record { source = src; src_type = oci }

abbrev pub new_file_src : String → ImageSource
new_file_src src = record { source = src; src_type = file }

abbrev pub new_dir_src : String → ImageSource
new_dir_src src = record { source = src; src_type = dir }
