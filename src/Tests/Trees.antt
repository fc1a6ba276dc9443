-- ===== src/Tests/Trees.antt =====
-- pkg/utils/grub.go on an image of a system with a shim, one module of GRUB and no more.
use elemental_cli.Base.{String, true, none, ◌≡◌, refl, arith, string_eq, ℕ_discrete, ℕ, ◌+◌}
use elemental_cli.Base.Text.{has_prefix}
use elemental_cli.Errors.{single, plain}
use elemental_cli.Golang.{Go}
use elemental_cli.Machine.{Outside, ok}
use elemental_cli.Files.Search.{Any}
use elemental_cli.Walk.{FileTree, FileTrees, WalkDirFunc, go_on, error_of, walk_dir_fs}
use elemental_cli.Walk.Visits.{visits, visits_from, visit_all, walk_dir_fs-visits}
use elemental_cli.Grub.{shim_name, install_efi}
use elemental_cli.Grub.Seekers.{IsEntry, IsModule}
use elemental_cli.Grub.Systems.{IsKnown}
use elemental_cli.Grub.Found.{install_efi-found}
use elemental_cli.Tests.Disks.{go}
use elemental_cli.Tests.Roots.{reply, start}

abbrev library : Go
library = record go { contains_text = λ s part. true }

abbrev quiet : Outside
quiet cs c = reply none

abbrev image : FileTree
image = FileTree.dir "root" (
    FileTrees.entries (FileTree.file "loopback.mod")
      (FileTrees.entries (FileTree.unreadable "lost" (single (plain "denied"))) (FileTrees.empty)))

abbrev bootable : FileTree
bootable = FileTree.dir "root" (
    FileTrees.entries (FileTree.file "loopback.mod") (
      FileTrees.entries (FileTree.file "os-release")
        (FileTrees.entries (FileTree.file "shim.efi") FileTrees.empty)))

abbrev count : WalkDirFunc ℕ
count path v n = (go_on, n + 1)

walk_dir_fs-visits_example :
    walk_dir_fs go count "/root" image none 0
    ≡ (let (r, s') = visit_all go count (visits_from go "/root" image none) 0 in (error_of r, s'))
walk_dir_fs-visits_example =
    walk_dir_fs-visits go count (λ p v s e. ground arith) "/root" image none 0

visited : (walk_dir_fs go count "/root" image none 0).1 ≡ 4
unfolding walk_dir_fs
visited = refl

-- The modules and files that are missing are not noticed.
installed :
    (install_efi library quiet bootable "/root" "x86_64" "/state" "/efi" "LABEL" start).0
    ≡ ok "shim.efi"
unfolding install_efi string_eq has_prefix ℕ_discrete
installed = refl

install_efi-found_example :
    ((system : String) × IsKnown system × ("shim.efi" ≡ shim_name system "x86_64"))
    × Any (IsEntry (λ path name. name ≡ "shim.efi")) (visits library "/root" bootable)
    × Any (IsEntry (IsModule library "x86_64" "loopback.mod")) (visits library "/root" bootable)
unfolding install_efi string_eq has_prefix ℕ_discrete
install_efi-found_example =
    install_efi-found library quiet bootable "/root" "x86_64" "/state" "/efi" "LABEL" start refl
