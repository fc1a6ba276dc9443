-- ===== src/Errors.antt =====
-- pkg/error, and what the program uses of `hashicorp/go-multierror`: the error values that the
-- components return, and the exit code that `Execute` of cmd/root.go derives from them.
use elemental_cli.Base.{ℕ, ◌≡◌, String, Option, none, some, List, [], ◌∷◌, ◌++◌}

-- An error that is no `*multierror.Error`: one of `errors.New`, `fmt.Errorf` or a library, or an
-- `*ElementalError` with its text and exit code.
pub data GoError : Type 0 where
  plain : String → GoError
  elemental : String → ℕ → GoError

-- The dynamic types of an `error` that is not nil; `multi` is a `*multierror.Error`, by `Errors`.
pub data Error : Type 0 where
  single : GoError → Error
  multi : List GoError → Error

-- Go's `error`: `none` is nil.
abbrev pub Err : Type 0
Err = Option Error

-- The errors that a value holds, as `multierror.Append` flattens it.
abbrev pub errors : Err → List GoError
errors none = []
errors (some (single e)) = e ∷ []
errors (some (multi es)) = es

-- `multierror`, which is not of this repository: `Append` of one error, as the list `Errors` of its
-- result, and the text of a multierror. The law is the documentation of `Append`: the errors of the
-- second are added behind those of the first, a multierror's flattened and a nil skipped.
pub record Multierror : Type 0 where
  pub append : Err → Err → List GoError
  pub format : List GoError → String
  pub append_lem : (e f : Err) → append e f ≡ errors e ++ errors f

-- `Error()` of each dynamic type.
unfoldable pub message : Multierror → Error → String
message M (single (plain text)) = text
message M (single (elemental text _)) = text
message M (multi es) = M.format es

-- `NewFromError`: nil stays nil, any other error becomes an `*ElementalError` with the code.
unfoldable pub new_from_error : Multierror → Err → ℕ → Err
new_from_error M none code = none
new_from_error M (some e) code = some (single (elemental (message M e) code))

-- `New`
abbrev pub new : String → ℕ → Err
new text code = some (single (elemental text code))

-- The status with which the process ends: `Execute` of cmd/root.go.
unfoldable pub exit_status : Err → ℕ
exit_status none = 0
exit_status (some (single (elemental _ code))) = code
exit_status (some (single (plain _))) = 1
exit_status (some (multi _)) = 1
