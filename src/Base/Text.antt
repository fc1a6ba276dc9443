-- ===== src/Base/Text.antt =====
-- The order of Go's strings, by their bytes, which is that of the native texts: it is total, and a
-- prefix comes first.
use Prim.Native.Nat.{Ordering}
use Prim.Native.String.{String, ◌++◌ as ◌<>◌, compare}
use Prim.Native.String.compare
use Prim.Native.String.append
use text.Mathlib.TextEquality.{path_by_compare}
use mathlib.Core.Path.{◌≡◌, refl}
use mathlib.Core.Bool.{Bool, true, false}
use native.Mathlib.Omega.{arith}
use Prim.Native.Char.{code}
use elemental_cli.Base.Sort.{IsLinear}
use elemental_cli.Base.Tests.{◌==◌, nat_eq, if◌then◌else◌}

-- `a <= b`
abbrev pub str_leb : String → String → Bool
str_leb a b = elim (compare a b) [ Ordering.gt ↦ false | _ ↦ true ]

pub str_leb_total : (a b : String) → str_leb a b ≡ false → str_leb b a ≡ true
str_leb_total String.[] String.[] h = refl
str_leb_total String.[] (String.◌∷◌ d t) h = ground (arith, compare.nil-cons d t)
str_leb_total (String.◌∷◌ c s) String.[] h = ground (arith, compare.nil-cons c s)
str_leb_total (String.◌∷◌ c s) (String.◌∷◌ d t) h =
    ground (arith, compare.cons-cons c d s t, compare.cons-cons d c t s, str_leb_total s t)

pub str_leb_trans : (a b c : String) → str_leb a b ≡ true → str_leb b c ≡ true → str_leb a c ≡ true
str_leb_trans String.[] b String.[] h k = refl
str_leb_trans String.[] b (String.◌∷◌ e u) h k = ground (arith, compare.nil-cons e u)
str_leb_trans (String.◌∷◌ x s) String.[] c h k = ground (arith, compare.cons-nil x s)
str_leb_trans (String.◌∷◌ x s) (String.◌∷◌ d t) String.[] h k = ground (arith, compare.cons-nil d t)
str_leb_trans (String.◌∷◌ x s) (String.◌∷◌ d t) (String.◌∷◌ e u) h k = ground (
  arith,
  compare.cons-cons x d s t,
  compare.cons-cons d e t u,
  compare.cons-cons x e s u,
  str_leb_trans s t u,
)

compare_eq : (a b : String) → str_leb a b ≡ true → str_leb b a ≡ true → compare a b ≡ Ordering.eq
compare_eq String.[] String.[] h k = refl
compare_eq String.[] (String.◌∷◌ d t) h k = ground (arith, compare.cons-nil d t)
compare_eq (String.◌∷◌ c s) String.[] h k = ground (arith, compare.cons-nil c s)
compare_eq (String.◌∷◌ c s) (String.◌∷◌ d t) h k =
    ground (arith, compare.cons-cons c d s t, compare.cons-cons d c t s, compare_eq s t)

pub str_leb_antisymm : (a b : String) → str_leb a b ≡ true → str_leb b a ≡ true → a ≡ b
str_leb_antisymm a b h k = path_by_compare a b (compare_eq a b h k)

pub str_leb_prefix : (a b : String) → str_leb a (a <> b) ≡ true
str_leb_prefix String.[] String.[] = refl
str_leb_prefix String.[] (String.◌∷◌ d t) =
    ground (arith, append.nil (String.◌∷◌ d t), compare.nil-cons d t)
str_leb_prefix (String.◌∷◌ c s) t =
    ground (arith, append.cons c s t, compare.cons-cons c c s (s <> t), str_leb_prefix s t)

pub str_leb-IsLinear : IsLinear str_leb
str_leb-IsLinear = record {
  total = str_leb_total;
  trans = str_leb_trans;
  antisymm = str_leb_antisymm;
}

-- `strings.TrimSuffix(s, "/")`
unfoldable pub trim_slash : String → String
trim_slash String.[] = ""
trim_slash (String.◌∷◌ c String.[]) = if code c == b'/' then "" else String.◌∷◌ c String.[]
trim_slash (String.◌∷◌ c (String.◌∷◌ d s)) = String.◌∷◌ c (trim_slash (String.◌∷◌ d s))

-- `strings.HasPrefix(s, prefix)`
unfoldable pub has_prefix : (s prefix : String) → Bool
has_prefix s String.[] = true
has_prefix String.[] (String.◌∷◌ d p) = false
has_prefix (String.◌∷◌ c s) (String.◌∷◌ d p) =
    let rest = has_prefix s p in if code c == code d then rest else false
