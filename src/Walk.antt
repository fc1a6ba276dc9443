-- ===== src/Walk.antt =====
-- `WalkDirFs` of pkg/utils/fs.go.
pub mod Visits
use elemental_cli.Base.{String, Bool, true, false, none, some, [], ◌∷◌}
use elemental_cli.Errors.{Err, Error}
use elemental_cli.Golang.{Go}

-- The files and directories below a path, by their names; the entries of a directory are in the order
-- of `readDir`. A directory may fail to be read.
mutual
  pub data FileTree : Type 0 where
    file : String → FileTree
    dir : String → FileTrees → FileTree
    unreadable : String → Error → FileTree

  pub data FileTrees : Type 0 where
    empty : FileTrees
    entries : FileTree → FileTrees → FileTrees

abbrev pub name_of : FileTree → String
name_of (FileTree.file n) = n
name_of (FileTree.dir n _) = n
name_of (FileTree.unreadable n _) = n

-- What `fs.WalkDirFunc` is called with after the path: an entry and no error, an entry and the error
-- of reading it, or no entry.
pub data Visit : Type 0 where
  entry : (name : String) (is_dir : Bool) → Visit
  unread : String → Error → Visit
  no_entry : Error → Visit

-- What it returns: nil, `filepath.SkipDir` or another error.
pub data Walked : Type 0 where
  go_on : Walked
  skip_dir : Walked
  stop : Error → Walked

abbrev pub error_of : Walked → Err
error_of go_on = none
error_of skip_dir = none
error_of (stop e) = some e

-- A function that is called for every entry, with what it changes.
abbrev pub WalkDirFunc : Type 0 → Type 0
WalkDirFunc S = String → Visit → S → Walked × S

module _ {S : Type 0} (L : Go) (fn : WalkDirFunc S) where
  unfoldable mutual
    -- `walkDir`
    pub walk_dir : String → FileTree → S → Walked × S
    walk_dir path (FileTree.file n) s = fn path (entry n false) s
    walk_dir path (FileTree.unreadable n e) s =
        let (r, s') = fn path (entry n true) s in
        elim r [ go_on ↦ fn path (unread n e) s' | skip_dir ↦ (go_on, s') | stop x ↦ (stop x, s') ]
    walk_dir path (FileTree.dir n ts) s =
        let (r, s') = fn path (entry n true) s in
        elim r [ go_on ↦ walk_entries path ts s' | skip_dir ↦ (go_on, s') | stop x ↦ (stop x, s') ]

    -- Its loop on the entries of a directory.
    pub walk_entries : String → FileTrees → S → Walked × S
    walk_entries path FileTrees.empty s = (go_on, s)
    walk_entries path (FileTrees.entries t ts) s =
        let (r, s') = walk_dir (L.join (path ∷ name_of t ∷ [])) t s in
        elim r [ go_on ↦ walk_entries path ts s' | skip_dir ↦ (go_on, s') | stop x ↦ (stop x, s') ]

  unfoldable pub walk_root : String → FileTree → Err → S → Walked × S
  unfolding walk_dir
  walk_root root tree none s = walk_dir root tree s
  walk_root root tree (some e) s = fn root (no_entry e) s

  -- `WalkDirFs`, given the tree below the root and the error of `Stat` of it.
  unfoldable pub walk_dir_fs : String → FileTree → Err → S → Err × S
  unfolding walk_root
  walk_dir_fs root tree stat_err s =
      let (r, s') = walk_root root tree stat_err s in (error_of r, s')
