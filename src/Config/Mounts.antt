-- ===== src/Config/Mounts.antt =====
-- Functions of pkg/config/config.go that give partitions a mount point.
use elemental_cli.Base.{
  ◌≡◌, refl, false, Option, none, some, arith, ◌==◌, nat_eq, string_eq, String,
}
use elemental_cli.Partitions.{Pointer, Heap, store}
use elemental_cli.Machine.{World, M, Result, ok, fail, panicked, ◌>>=◌}
use elemental_cli.Spec.{is_undefined}
use elemental_cli.Config.Host.{default_mount, rename, if_found}

-- A partition that has a mount point.
abbrev pub HasMount : Heap → Pointer → Type 0
HasMount h p = ((h p).mount_point == "") ≡ false

-- The same, if there is the partition.
abbrev pub IsMounted : Heap → Option Pointer → Type 0
IsMounted h none = Unit
IsMounted h (some p) = HasMount h p

-- No partition loses its mount point.
unfoldable pub KeepsMounts : Heap → Heap → Type 0
KeepsMounts h h' = (p : Pointer) → HasMount h p → HasMount h' p

pub KeepsMounts-trans :
    (h h' h'' : Heap) → KeepsMounts h h' → KeepsMounts h' h'' → KeepsMounts h h''
unfolding KeepsMounts
KeepsMounts-trans h h' h'' k l p m = l p (k p m)

pub default_mount-KeepsMounts :
    (dir : String) (q : Pointer) (h : Heap) → KeepsMounts h (default_mount dir q h)
unfolding KeepsMounts default_mount store
default_mount-KeepsMounts dir q h p m = ground arith

pub default_mount-HasMount :
    (dir : String) (p : Pointer) (h : Heap)
    → (dir == "") ≡ false
    → HasMount (default_mount dir p h) p
unfolding default_mount store
default_mount-HasMount dir p h d = ground arith

pub rename-KeepsMounts : (name : String) (q : Pointer) (h : Heap) → KeepsMounts h (rename name q h)
unfolding KeepsMounts rename store
rename-KeepsMounts name q h p m = ground arith

-- What `NewUpgradeSpec` does with a partition that may be there.
pub if_found-KeepsMounts :
    (f : Pointer → Heap → Heap) (o : Option Pointer) (h : Heap)
    → ((p : Pointer) (k : Heap) → KeepsMounts k (f p k))
    → KeepsMounts h (if_found f o h)
unfolding KeepsMounts if_found
if_found-KeepsMounts f none h k p m = m
if_found-KeepsMounts f (some q) h k p m = k q h p m

pub if_found-IsMounted :
    (f : Pointer → Heap → Heap) (o : Option Pointer) (h : Heap)
    → ((p : Pointer) (k : Heap) → HasMount (f p k) p)
    → IsMounted (if_found f o h) o
unfolding if_found
if_found-IsMounted f none h m = tt
if_found-IsMounted f (some p) h m = m p h

pub IsMounted-KeepsMounts :
    (h h' : Heap) (o : Option Pointer) → KeepsMounts h h' → IsMounted h o → IsMounted h' o
unfolding KeepsMounts
IsMounted-KeepsMounts h h' none k m = tt
IsMounted-KeepsMounts h h' (some p) k m = k p m

pub is_undefined-IsMounted :
    (h : Heap) (p : Pointer) → HasMount h p → is_undefined h (some p) ≡ false
unfolding is_undefined
is_undefined-IsMounted h p m = m

-- What a chain of steps that has returned a value has done.
abbrev pub After : {A B : Type 0} → (A → M B) → Result A × World → Result B × World → Type 0
After {A} f (r, w) s = (a : A) × (r ≡ ok a) × (f a w ≡ s)

bind_elim :
    {A B : Type 0} (r : Result A) (w : World) (f : A → M B) {b : B} {w' : World}
    → (let t : Result B × World = elim r [
      | ok a ↦ f a w
      | fail e ↦ (fail e, w)
      | panicked ↦ (panicked, w)
    ] in
        t)
      ≡ (ok b, w')
    → After f (r, w) (ok b, w')
bind_elim (ok a) w f e = (a, refl, e)
bind_elim (fail x) w f e = absurd (ground arith)
bind_elim panicked w f e = absurd (ground arith)

pub bind-After :
    {A B : Type 0} (m : M A) (f : A → M B) (w : World) {b : B} {w' : World}
    → (m >>= f) w ≡ (ok b, w')
    → After f (m w) (ok b, w')
bind-After m f w e = bind_elim (m w).0 (m w).1 f e

-- A property of what a function returns, if it returns a value.
abbrev pub Ensures : {A : Type 0} → (A → Heap → Type 0) → Result A × World → Type 0
Ensures P (ok a, w) = P a w.heap
Ensures P (fail e, w) = Unit
Ensures P (panicked, w) = Unit
