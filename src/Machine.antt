-- ===== src/Machine.antt =====
-- What runs outside of this repository, and the effects of the code: calls of the interfaces in
-- pkg/types/v1 (`Runner`, `FS`, `SyscallInterface`, `CloudInitRunner`, `ImageExtractor`,
-- `HTTPClient`), of the mounter of k8s.io/mount-utils, of ghw and of rsync, and changes of partitions
-- through their pointers.
use elemental_cli.Base.{String, Bool, none, some, List, ◌∷◌}
use elemental_cli.Errors.{Err, Error, single, plain}
use elemental_cli.Partitions.{Partition, Heap}

-- One call. The methods of the file system and of the operating system are given by their name.
pub data Call : Type 0 where
  -- `Runner.Run`
  run : String → List String → Call
  -- `Mounter.Mount`, `Mounter.Unmount` and `Mounter.IsLikelyNotMountPoint`
  mount : (source target fstype : String) (options : List String) → Call
  unmount : String → Call
  is_likely_not_mount_point : String → Call
  -- a method of `v1.FS`, or of package `os` on a file that it opened
  fs : String → List String → Call
  -- a method of `Syscall`, or of package `os`
  sys : String → List String → Call
  -- `block.New` of ghw, by `utils.GetAllPartitions`
  all_partitions : Call
  -- any other library, by the name of its function
  library : String → List String → Call

-- What a call returns; each caller reads the parts that its function has.
pub record Reply : Type 0 where
  pub out : String
  pub flag : Bool
  pub err : Err
  pub partitions : List Partition

-- The outside: what it replies to a call may depend on all calls before, the latest first.
abbrev pub Outside : Type 0
Outside = List Call → Call → Reply

-- The calls that were made, the latest first, and the partitions in memory.
pub record World : Type 0 where
  pub calls : List Call
  pub heap : Heap

-- A function that returns an `error` only.
abbrev pub Proc : Type 0
Proc = World → Err × World

-- A function that returns a value and an `error`, or panics.
pub data Result (A : Type 0) : Type 0 where
  ok : A → Result A
  fail : Error → Result A
  panicked : Result A

abbrev pub M : Type 0 → Type 0
M A = World → Result A × World

abbrev pub pure : {A : Type 0} → A → M A
pure a w = (ok a, w)

abbrev pub throw : {A : Type 0} → Error → M A
throw e w = (fail e, w)

-- `errors.New` and `fmt.Errorf`
abbrev pub errorf : {A : Type 0} → String → M A
errorf text = throw (single (plain text))

infixl 5 ◌>>=◌ ◌>>◌
abbrev pub ◌>>=◌ : {A B : Type 0} → M A → (A → M B) → M B
◌>>=◌ m f w =
    let (r, w') = m w in
    elim r [ ok a ↦ f a w' | fail e ↦ (fail e, w') | panicked ↦ (panicked, w') ]

abbrev pub ◌>>◌ : {A B : Type 0} → M A → M B → M B
m >> k = m >>= λ _. k

-- `if err != nil { return err }`
abbrev pub checked : Err → M (Unit {0})
checked none w = (ok tt, w)
checked (some e) w = (fail e, w)

-- `err = p(); if err != nil { return err }`
abbrev pub lift : Proc → M (Unit {0})
lift p w = let (e, w') = p w in checked e w'

-- The same in a function that returns an `error` only.
infixl 5 ◌then◌
abbrev pub ◌then◌ : Proc → Proc → Proc
◌then◌ p q w = let (e, w') = p w in elim e [ none ↦ q w' | some x ↦ (some x, w') ]

abbrev pub return_err : Err → Proc
return_err e w = (e, w)

abbrev pub with_heap : Heap → World → World
with_heap h w = record w { heap = h }

-- The calls of a world are those of an earlier one, with more calls after them.
module _ (O : Outside) where
  unfoldable pub ask : Call → World → Reply × World
  ask c w = (O w.calls c, record w { calls = c ∷ w.calls })

  -- A call of which only the error counts.
  unfoldable pub perform : Call → Proc
  unfolding ask
  perform c w = ((O w.calls c).err, record w { calls = c ∷ w.calls })

  -- A call of which the output and the error count.
  unfoldable pub output : Call → M String
  output c w =
      let r = O w.calls c in
      elim r.err [
        | none ↦ (ok r.out, record w { calls = c ∷ w.calls })
        | some e ↦ (fail e, record w { calls = c ∷ w.calls })
      ]
