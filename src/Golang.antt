-- ===== src/Golang.antt =====
-- The functions of Go's standard library that the code applies to texts.
use elemental_cli.Base.{
  ℕ, zero, suc, String, ◌<>◌, Bool, Option, List, ◌/◌, ◌%◌, ltb, ◌==◌, nat_eq, if◌then◌else◌,
}
use elemental_cli.Errors.{Err}

-- `re` is the text of a regular expression.
pub record Go : Type 0 where
  -- `regexp.MustCompile(re).FindStringSubmatch(s)`, and `regexp.MatchString(re, s)`
  pub submatch : (re s : String) → Option (List String)
  pub matches : (re s : String) → Bool
  -- `strconv.ParseUint(s, 10, 0)`, and the number of `strconv.Atoi(s)`
  pub parse_uint : String → ℕ × Err
  pub atoi : String → ℕ
  -- `strings.TrimSpace`, and the lines that a `bufio.Scanner` yields
  pub trim_space : String → String
  pub lines : String → List String
  -- `filepath.Join`, `filepath.Base`, `filepath.Dir`, and a path without its `filepath.Ext`
  pub join : List String → String
  pub base : String → String
  pub dir : String → String
  pub trim_ext : String → String
  -- `strings.Contains(s, part)`, `strings.HasSuffix(s, part)` and `strings.Split(s, part)`
  pub contains_text : (s part : String) → Bool
  pub has_suffix : (s part : String) → Bool
  pub split : (s part : String) → List String
  -- `strings.SplitN(s, part, n)`, and `strings.Trim(s, cutset)`
  pub split_n : (s part : String) → ℕ → List String
  pub trim : (s cutset : String) → String

-- `%d` of a number that is not negative.
digit : ℕ → String
digit n =
    if n == 0
    then "0"
    else if n == 1
    then "1"
    else if n == 2
    then "2"
    else if n == 3
    then "3"
    else if n == 4
    then "4"
    else if n == 5
    then "5"
    else if n == 6
    then "6"
    else if n == 7
    then "7"
    else if n == 8
    then "8"
    else "9"

-- With at most so many digits before the last one.
unfoldable digits : ℕ → ℕ → String
unfolding digit
digits zero n = digit (n % 10)
digits (suc fuel) n =
    let front = digits fuel (n / 10) in if ltb n 10 then digit n else front <> digit (n % 10)

-- A number below 10 ^ 20, and so any with 64 bits.
unfoldable pub decimal : ℕ → String
unfolding digits
decimal n = digits 19 n
