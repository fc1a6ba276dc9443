-- ===== src/Layout/Untouched.antt =====
-- A layout that is on the disk already.
use elemental_cli.Base.{
  ℕ, zero, suc, String, Bool, true, false, ◌||◌, Option, none, some, List, [], ◌∷◌, ◌==◌, string_eq,
  if◌then◌else◌, ◌≡◌, refl, ◌∙◌, All, Option-cases, Bool-cases, inl, inr,
}
use elemental_cli.Errors.{Multierror}
use elemental_cli.Golang.{Go}
use elemental_cli.Machine.{
  Call, Reply, Outside, World, Result, M, ok, fail, panicked, pure, ask, perform, ◌>>=◌,
}
use elemental_cli.Devices.{partition_by_label, find_label, get_full_device_by_label}
use elemental_cli.Partitions.{Partition}
use elemental_cli.Partitioner.Disk.{Disk, new_disk, disk_exists}
use elemental_cli.Layout.{
  LayoutPart, LayoutDevice, Layout, add_parts, expanded, target_disk, existing, apply_layout,
  layout_plugin,
}

-- The calls that only read: they wait for udev, and look at the partitions and at files.
abbrev pub is_reading : Call → Bool
is_reading (Call.run command _) = command == "udevadm"
is_reading (Call.fs method _) = method == "Stat" || method == "Readlink"
is_reading Call.all_partitions = true
is_reading _ = false

-- The others.
abbrev pub writes : List Call → List Call
writes [] = []
writes (c ∷ cs) = let rest = writes cs in if is_reading c then rest else c ∷ rest

-- The reply of ghw lists a partition with that label.
abbrev pub IsListed : Reply → String → Type 0
IsListed r label =
    (r.err ≡ none) × ((p : Partition) × (partition_by_label r.partitions label ≡ some p))

-- A function that only reads, and returns what another one returns.
abbrev OnlyReads : {A : Type 0} → M A → M A → Type 0
OnlyReads m m' = (w : World) → (writes (m w).1.calls ≡ writes w.calls) × ((m w).0 ≡ (m' w).0)

resume-OnlyReads :
    {A B : Type 0} (r : Result A) (f g : A → M B) (w : World)
    → ((a : A) → OnlyReads (f a) (g a))
    → let back : M A = λ _. (r, w) in
      (writes ((back >>= f) w).1.calls ≡ writes w.calls) × (((back >>= f) w).0 ≡ ((back >>= g) w).0)
resume-OnlyReads (ok a) f g w h = h a w
resume-OnlyReads (fail e) f g w h = (refl, refl)
resume-OnlyReads panicked f g w h = (refl, refl)

bind-OnlyReads :
    {A B : Type 0} (m : M A) (f g : A → M B)
    → OnlyReads m m
    → ((a : A) → OnlyReads (f a) (g a))
    → OnlyReads (m >>= f) (m >>= g)
bind-OnlyReads m f g h k w =
    let (r, w') = m w in let (calls, same) = resume-OnlyReads r f g w' k in (calls ∙ (h w).0, same)

retry-writes :
    (r : Result (Option Partition)) (rest : Result Partition × World) (w : World)
    → writes rest.1.calls ≡ writes w.calls
    → (let t : Result Partition × World = elim r [
      | ok none ↦ rest
      | ok (some p) ↦ (ok p, w)
      | fail e ↦ (fail e, w)
      | panicked ↦ (panicked, w)
    ] in
        writes t.1.calls ≡ writes w.calls)
retry-writes (ok none) rest w h = h
retry-writes (ok (some p)) rest w h = refl
retry-writes (fail e) rest w h = refl
retry-writes panicked rest w h = refl

module _ (O : Outside) where
  -- Whatever was called before, the label of the partition is found.
  abbrev pub IsThere : LayoutPart → Type 0
  IsThere part = (cs : List Call) → IsListed (O cs Call.all_partitions) part.fs_label

  find_label-OnlyReads : (label : String) → OnlyReads (find_label O label) (find_label O label)
  unfolding find_label ask perform string_eq
  find_label-OnlyReads label w =
      elim (Option-cases
        (O (Call.run "udevadm" ("settle" ∷ []) ∷ w.calls) Call.all_partitions).err) [
          | inl e ↦ (rw e refl, refl)
          | inr (x, e) ↦ (rw e refl, refl)
        ]

  get_full_device-writes :
      (tries : ℕ) (label : String) (w : World)
      → writes (get_full_device_by_label O tries label w).1.calls ≡ writes w.calls
  unfolding get_full_device_by_label
  get_full_device-writes zero label w = refl
  get_full_device-writes (suc n) label w =
      let (r, w') = find_label O label w in
      retry-writes r (get_full_device_by_label O n label w') w' (get_full_device-writes n label w')
      ∙ (find_label-OnlyReads label w).0

  get_full_device-IsThere :
      (part : LayoutPart) (w : World)
      → IsThere part
      → (p : Partition) × ((get_full_device_by_label O 1 part.fs_label w).0 ≡ ok p)
  unfolding get_full_device_by_label find_label ask perform
  get_full_device-IsThere part w h =
      let (fine, (p, found)) = h (Call.run "udevadm" ("settle" ∷ []) ∷ w.calls) in
      (p, rw (fine, found) refl)

  module _ (L : Go) where
    disk_exists-writes :
        (d : Disk) (w : World) → writes (disk_exists L O d w).1.calls ≡ writes w.calls
    unfolding disk_exists ask string_eq
    disk_exists-writes d w = elim (Option-cases (O w.calls (Call.fs "Stat" (d.device ∷ []))).err) [
      | inr (x, e) ↦ rw e refl
      | inl e ↦ elim (Bool-cases (O w.calls (Call.fs "Stat" (d.device ∷ []))).flag) [
        | inl f ↦ rw (e, f) refl
        | inr f ↦ rw (e, f) refl
      ]
    ]

    module _ (E : Multierror) where
      existing-OnlyReads : (d : Disk) → OnlyReads (existing E L O d) (existing E L O d)
      unfolding existing
      existing-OnlyReads d w = elim (Option-cases (disk_exists L O d w).0) [
        | inl e ↦ (rw e (disk_exists-writes d w), refl)
        | inr (x, e) ↦ (rw e (disk_exists-writes d w), refl)
      ]

      target_disk-OnlyReads :
          (device : LayoutDevice) → OnlyReads (target_disk E L O device) (target_disk E L O device)
      unfolding target_disk
      target_disk-OnlyReads device w = elim (Bool-cases (L.trim_space device.label == "")) [
        | inr given ↦
            let find = get_full_device_by_label O 5 device.label in
            let disk : Partition → M (Option Disk) = λ part. pure (some (new_disk part.disk)) in
            let (calls, _) =
              bind-OnlyReads find disk disk (λ w. (get_full_device-writes 5 device.label w, refl))
                (λ part w. (refl, refl)) w in
            (rw given calls, refl)
        | inl blank ↦ elim (Bool-cases (L.trim_space device.path == "")) [
          | inl no_path ↦ (rw (blank, no_path) refl, refl)
          | inr path ↦ (rw (blank, path) refl, refl)
        ]
      ]

      add_parts-OnlyReads :
          (dev : Disk) (parts : List LayoutPart)
          → All IsThere parts
          → OnlyReads (add_parts E L O dev parts) (add_parts E L O dev [])
      unfolding add_parts
      add_parts-OnlyReads dev [] h w = (refl, refl)
      add_parts-OnlyReads dev (part ∷ parts) (here, h) w =
          let (p, e) = get_full_device-IsThere part w here in
          let w' = (get_full_device_by_label O 1 part.fs_label w).1 in
          let (calls, same) = add_parts-OnlyReads dev parts h w' in
          rw e (calls ∙ get_full_device-writes 1 part.fs_label w, same)

      apply_layout-OnlyReads :
          (parts : List LayoutPart) (dev : Option Disk)
          → All IsThere parts
          → OnlyReads (apply_layout E L O none parts dev) (apply_layout E L O none [] dev)
      unfolding apply_layout expanded
      apply_layout-OnlyReads parts none h = λ w. (refl, refl)
      apply_layout-OnlyReads parts (some dev) h =
          bind-OnlyReads (existing E L O dev) (λ dev. add_parts E L O dev parts)
            (λ dev. add_parts E L O dev []) (existing-OnlyReads dev)
            (λ dev. add_parts-OnlyReads dev parts h)

      -- If the label of each partition of a layout is found, whatever was called before, and the last
      -- partition is not to be extended, the layout plugin changes nothing on any disk: all its calls
      -- only read, and it returns what it does for a layout without partitions.
      pub layout_plugin-OnlyReads :
          (own_console own_logger : Bool) (layout : Layout) (w : World)
          → layout.expand ≡ none
          → All IsThere layout.parts
          → let (r, w') = layout_plugin E L O own_console own_logger layout w in
            (writes w'.calls ≡ writes w.calls)
            × (r ≡ (layout_plugin E L O own_console own_logger (record layout { parts = [] }) w).0)
      unfolding layout_plugin
      layout_plugin-OnlyReads own_console own_logger layout w e h =
          elim (Option-cases layout.device) [
            | inl none_given ↦ rw none_given (refl, refl)
            | inr (device, given) ↦
                let apply = apply_layout E L O none in
                let (calls, same) =
                  bind-OnlyReads (target_disk E L O device) (apply layout.parts) (apply [])
                    (target_disk-OnlyReads device)
                    (λ dev. apply_layout-OnlyReads layout.parts dev h) w in
                rw (given, e)
                  (elim (Bool-cases own_console) [
                    | inr other ↦ rw other (refl, refl)
                    | inl own ↦ elim (Bool-cases own_logger) [
                      | inr other ↦ rw (own, other) (refl, refl)
                      | inl logger ↦ rw (own, logger) (calls, same)
                    ]
                  ])
          ]
