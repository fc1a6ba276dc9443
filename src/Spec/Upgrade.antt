-- ===== src/Spec/Upgrade.antt =====
-- When `UpgradeSpec.Sanitize` accepts a specification.
use elemental_cli.Base.{
  ◌≡◌, ◌↔◌, refl, Bool, true, false, Option, none, some, arith, if◌then◌else◌, String,
}
use elemental_cli.ImageSource.{ImageSource, is_empty}
use elemental_cli.Partitions.{Pointer, Heap}
use elemental_cli.Spec.{
  UpgradeSpec, Outcome, returned, is_undefined, sanitize_source, sanitize_upgrade,
  unset_upgrade_active, unset_upgrade_recovery,
}

-- The partition that is upgraded and the source of its new image.
abbrev pub target : UpgradeSpec → Option Pointer × Option ImageSource
target u =
    if u.recovery_upgrade
    then (u.partitions.recovery, u.recovery.source)
    else (u.partitions.state, u.active.source)

-- The partition is there with a mount point, and the source is there and is not empty.
abbrev pub IsReady : Heap → Option Pointer → Option ImageSource → Type 0
IsReady h part source =
    (src : ImageSource) × (is_undefined h part ≡ false)
    × (source ≡ some src)
    × (is_empty src ≡ false)

sanitize_source_iff :
    (text : String) (h : Heap) (part : Option Pointer) (source : Option ImageSource)
    (u : UpgradeSpec)
    → ((u' : UpgradeSpec) × (sanitize_source text h part source u ≡ returned none u'))
      ↔ IsReady h part source
unfolding sanitize_source
sanitize_source_iff text h part none u = (λ (u', e). absurd (ground arith), λ (src, d, s, n). cc)
sanitize_source_iff text h part (some src) u = (
  λ (u', e). (src, ground arith, refl, ground arith),
  λ (src', d, s, n). (unset_upgrade_recovery (unset_upgrade_active u), ground arith),
)

abbrev Accepts : Heap → Outcome UpgradeSpec → Option Pointer × Option ImageSource → Type 0
Accepts h r (part, source) = ((u' : UpgradeSpec) × (r ≡ returned none u')) ↔ IsReady h part source

choose-Accepts :
    (h : Heap) (b : Bool) (r s : Outcome UpgradeSpec) (p q : Option Pointer × Option ImageSource)
    → Accepts h r p
    → Accepts h s q
    → Accepts h (if b then r else s) (if b then p else q)
choose-Accepts h true r s p q x y = x
choose-Accepts h false r s p q x y = y

-- `Sanitize` returns nil exactly if the partition to upgrade is there and has a mount point, and the
-- source of the image is there and is not empty; whatever the partition that is not upgraded.
pub sanitize_upgrade_iff :
    (u : UpgradeSpec) (h : Heap)
    → ((u' : UpgradeSpec) × (sanitize_upgrade u h ≡ returned none u'))
      ↔ IsReady h (target u).0 (target u).1
unfolding sanitize_upgrade
sanitize_upgrade_iff u h =
    choose-Accepts h u.recovery_upgrade _ _ _ _
      (sanitize_source_iff "undefined recovery partition" h _ u.recovery.source u)
      (sanitize_source_iff "undefined state partition" h _ u.active.source u)
