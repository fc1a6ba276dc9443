-- ===== src/Chroot.antt =====
-- pkg/utils/chroot.go, and `MkdirAll` of pkg/utils/fs.go: a command or a function runs in a chroot
-- environment, with the mounts that it needs.
pub mod Mounts
use elemental_cli.Base.{
  ℕ, String, ◌<>◌, Bool, true, false, Option, none, some, List, [], ◌∷◌, ◌++◌, map, reverse,
  if◌then◌else◌,
}
use elemental_cli.Base.Dict.{Dict, lookup}
use elemental_cli.Base.Sort.{sort}
use elemental_cli.Base.Text.{str_leb, trim_slash}
use elemental_cli.Errors.{Err, single, plain}
use elemental_cli.Machine.{Call, Outside, World, Proc, ask, perform, ◌then◌}

pub record Chroot : Type 0 where
  pub path : String
  pub default_mounts : List String
  pub extra_mounts : Dict String
  pub active_mounts : List String

-- `NewChroot`
unfoldable pub new_chroot : String → Chroot
new_chroot path = record {
  path = path;
  default_mounts = "/dev" ∷ "/dev/pts" ∷ "/proc" ∷ "/sys" ∷ [];
  extra_mounts = [];
  active_mounts = [];
}

-- `c.extraMounts[k]`: the empty text if the key is missing.
value_of : Option String → String
value_of none = ""
value_of (some v) = v

keys : Dict String → List String
keys [] = []
keys ((k, _) ∷ d) = k ∷ keys d

-- A mount to make: its source, and the mount point in the chroot environment.
abbrev pub Bind : Type 0
Bind = record { source : String; target : String }

bind_at : Chroot → String → String → Bind
bind_at c source inside = record { source = source; target = trim_slash c.path <> inside }

-- The mounts of the two loops of `Prepare`, in their order.
unfoldable pub binds : Chroot → List Bind
unfolding bind_at keys value_of lookup sort trim_slash
binds c =
    map (λ mnt. bind_at c mnt mnt) c.default_mounts
    ++ map (λ k. bind_at c k (value_of (lookup k c.extra_mounts)))
        (sort str_leb (keys c.extra_mounts))

-- The error of a function with deferred functions that may fail: the first one counts.
abbrev pub first : Err → Err → Err
first none e = e
first (some e) _ = some e

module _ (O : Outside) where
  -- `MkdirAll` of pkg/utils/fs.go, on a file system that is not a `vfs.ReadOnlyFS`.
  unfoldable pub mkdir_all : String → Proc
  unfolding ask perform
  mkdir_all name w =
      let (r, w') = ask O (Call.fs "RawPath" (name ∷ [])) w in
      elim r.err [
        | none ↦ perform O (Call.sys "MkdirAll" (r.out ∷ [])) w'
        | some e ↦ (some (single (plain ("mkdir " <> r.out))), w')
      ]

  -- The body of the two loops of `Prepare`.
  unfoldable pub bind_mount : Bind → Proc
  unfolding mkdir_all perform
  bind_mount b =
      mkdir_all b.target then perform O (Call.mount b.source b.target "bind" ("bind" ∷ []))

  -- The loops of `Prepare`: the error, and the mounts that are active.
  unfoldable pub mount_all : List Bind → List String → World → Err × List String × World
  unfolding bind_mount
  mount_all [] active w = (none, active, w)
  mount_all (b ∷ bs) active w =
      let (e, w') = bind_mount b w in
      let rest = mount_all bs (active ++ (b.target ∷ [])) w' in
      elim e [ none ↦ rest | some x ↦ (some x, active, w') ]

  -- The loop of `Close` on the active mounts, the last one first: those that could not be unmounted.
  unfoldable pub unmount_all : List String → World → List String × World
  unfolding perform
  unmount_all [] w = ([], w)
  unmount_all (m ∷ ms) w =
      let (e, w') = perform O (Call.unmount m) w in
      let (failures, w'') = unmount_all ms w' in
      (elim e [ none ↦ failures | some _ ↦ m ∷ failures ], w'')

  -- The end of `Close`.
  closed : Chroot → List String → World → Err × Chroot × World
  closed c [] w = (none, record c { active_mounts = [] }, w)
  closed c (f ∷ fs) w = (
    some (single (plain "failed closing chroot environment. Unmount failures")),
    record c { active_mounts = f ∷ fs },
    w,
  )

  unfoldable pub close : Chroot → World → Err × Chroot × World
  unfolding unmount_all closed
  close c w = let (failures, w') = unmount_all (reverse c.active_mounts) w in closed c failures w'

  -- `Prepare` on an environment with no active mounts; on an error it closes what it has mounted.
  mounted : Chroot → Err × List String × World → Err × Chroot × World
  unfolding close
  mounted c (none, active, w) = (none, record c { active_mounts = active }, w)
  mounted c (some e, active, w) =
      let (_, c', w') = close (record c { active_mounts = active }) w in (some e, c', w')

  unfoldable pub prepare : Chroot → World → Err × Chroot × World
  unfolding mounted mount_all binds
  prepare c w = elim c.active_mounts [
    | [] ↦ mounted c (mount_all (binds c) [] w)
    | m ∷ ms ↦
        (some (single (plain "There are already active mountpoints for this instance")), c, w)
  ]

  -- The function that restores the old root: the error of the callback, or its own.
  restore : Err → World → Err × World
  unfolding perform
  restore e w =
      let (t, w') =
        (perform O (Call.fs "File.Chdir" ("/" ∷ [])) then perform O (Call.sys "Chroot" ("." ∷ [])))
          w in
      (first e t, w')

  entered : Proc → Proc
  unfolding restore
  entered callback w = let (e, w') = callback w in restore e w'

  -- From the change of the directory on.
  unfoldable pub in_chroot : String → Proc → Proc
  unfolding entered perform
  in_chroot path callback =
      perform O (Call.sys "Chdir" (path ∷ []))
      then (perform O (Call.sys "Chroot" (path ∷ [])) then entered callback)

  -- The callback between the mounts of `Prepare` and the deferred `Close`.
  prepared : Proc → Err × Chroot × World → Err × Chroot × World
  unfolding in_chroot close
  prepared callback (some e, c, w) = (some e, c, w)
  prepared callback (none, c, w) =
      let (e, w') = in_chroot c.path callback w in
      let (t, c', w'') = close c w' in (first e t, c', w'')

  unfoldable pub with_mounts : Chroot → Proc → World → Err × Chroot × World
  unfolding prepared prepare in_chroot
  with_mounts c callback w = elim c.active_mounts [
    | [] ↦ prepared callback (prepare c w)
    | m ∷ ms ↦ let (e, w') = in_chroot c.path callback w in (e, c, w')
  ]

  -- With the current root open: it is closed in the end.
  unfoldable pub with_root : Chroot → Proc → World → Err × Chroot × World
  unfolding with_mounts perform
  with_root c callback w =
      let (e, w') = perform O (Call.fs "Open" ("/" ∷ [])) w in
      elim e [
        | some x ↦ (some x, c, w')
        | none ↦
            let (e', c', w'') = with_mounts c callback w' in
            (e', c', (perform O (Call.fs "File.Close" ("/" ∷ [])) w'').1)
      ]

  unfoldable pub run_callback : Chroot → Proc → World → Err × Chroot × World
  unfolding with_root ask perform
  run_callback c callback w =
      let (r, w') = ask O (Call.sys "Getwd" []) w in
      elim r.err [
        | some x ↦ (some x, c, w')
        | none ↦
            let (e, c', w'') = with_root c callback w' in
            let (t, w''') = perform O (Call.sys "Chdir" (r.out ∷ [])) w'' in (first e t, c', w''')
      ]

  -- `ChrootedCallback`
  unfoldable pub chrooted_callback : String → Dict String → Proc → Proc
  unfolding run_callback new_chroot
  chrooted_callback path bind_mounts callback w =
      let (e, _, w') =
        run_callback (record (new_chroot path) { extra_mounts = bind_mounts }) callback w in
      (e, w')
