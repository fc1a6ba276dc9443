-- ===== src/Devices/Tries.antt =====
-- A device that appears while `GetFullDeviceByLabel` waits for it.
use elemental_cli.Base.{ℕ, zero, suc, ◌<◌, ◌≡◌, refl, String, none, some, arith}
use elemental_cli.Machine.{Outside, World, ok}
use elemental_cli.Partitions.{Partition}
use elemental_cli.Devices.{find_label, get_full_device_by_label}

module _ (O : Outside) (label : String) where
  -- The world after so many tries.
  abbrev pub after : ℕ → World → World
  after zero w = w
  after (suc n) w = after n (find_label O label w).1

  -- If the device is listed at a try within the attempts, and at none of those before, none of which
  -- fails, then `GetFullDeviceByLabel` returns it, after that try and no more calls.
  pub get_full_device_by_label-after :
      (attempts k : ℕ) (w : World) {p : Partition}
      → k < attempts
      → ((i : ℕ) → i < k → (find_label O label (after i w)).0 ≡ ok none)
      → (find_label O label (after k w)).0 ≡ ok (some p)
      → get_full_device_by_label O attempts label w ≡ (ok p, after (suc k) w)
  unfolding get_full_device_by_label
  get_full_device_by_label-after zero k w h missing found = absurd (omega arith)
  get_full_device_by_label-after (suc n) zero w h missing found =
      rw (found, get_full_device_by_label) refl
  get_full_device_by_label-after (suc n) (suc k) w h missing found =
      rw (missing 0 (omega arith), get_full_device_by_label)
        (get_full_device_by_label-after n k (find_label O label w).1 (omega arith)
          (λ i less. missing (suc i) (omega arith)) found)
