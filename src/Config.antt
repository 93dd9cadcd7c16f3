-- ===== src/Config.antt =====
-- The configuration, src/common/config.h and src/common/config.cpp: registered fields, and the file
-- whose lines set them. `std::stod` is a parameter; no field of the program is a `double`.
pub mod Trim
pub mod Lines
pub mod Lists
pub mod Settings
pub mod Fields
mod Tests
use blp_cache.Decimal.{stoi, stoll}
use blp_cache.Prelude.Int.{ℤ, pos, negsuc}
use mathlib.Core.Option
use blp_cache.Prelude.{
  Bool, Bytes, List, Option, [], codes, drop, false, if◌then◌else◌, length, ltb, none, same, some,
  suc, take, true, ℕ, ◌%◌, ◌++◌, ◌+◌, ◌-◌, ◌==◌, ◌||◌, ◌∷◌,
}

abbrev pub is_blank : ℕ → Bool
is_blank c = c == b' ' || c == b'\t'

-- `find_first_not_of(" \t")`
unfoldable pub find_first_not_of : Bytes → Option ℕ
find_first_not_of [] = none
find_first_not_of (c ∷ s) =
    let later = Option.map suc (find_first_not_of s) in if is_blank c then later else some 0

-- `find_last_not_of(" \t")`
unfoldable pub find_last_not_of : Bytes → Option ℕ
find_last_not_of [] = none
find_last_not_of (c ∷ s) = elim (find_last_not_of s) [
  | some i ↦ some (suc i)
  | none ↦ if is_blank c then none else some 0
]

-- `substr(first, count)`
abbrev pub substr : Bytes → ℕ → ℕ → Bytes
substr s first count = take count (drop first s)

unfoldable pub trim : Bytes → Bytes
trim str = elim (find_first_not_of str) [
  | none ↦ []
  | some first ↦ elim (find_last_not_of str) [
    | none ↦ []
    | some last ↦ substr str first (last - first + 1)
  ]
]

-- What the lines of `std::getline` are: the texts between newlines, and the last one unless it is empty.
unfoldable pub lines_from : Bytes → Bytes → List Bytes
lines_from line [] = if length line == 0 then [] else line ∷ []
lines_from line (c ∷ s) =
    let ended = line ∷ lines_from [] s in
    let longer = lines_from (line ++ (c ∷ [])) s in if c == b'\n' then ended else longer

unfoldable pub lines : Bytes → List Bytes
lines = lines_from []

-- `find('=')`, with the texts before and behind it.
unfoldable pub split_equals : Bytes → Option (Bytes × Bytes)
split_equals [] = none
split_equals (c ∷ s) =
    let later = Option.map (λ (p : Bytes × Bytes). (c ∷ p.0, p.1)) (split_equals s) in
    if c == b'=' then some ([], s) else later

-- A number converted to `int16_t`.
unfoldable pub int16 : ℤ → ℤ
int16 (pos n) = if ltb (n % 65536) 32768 then pos (n % 65536) else negsuc (65535 - n % 65536)
int16 (negsuc n) = if ltb (n % 65536) 32768 then negsuc (n % 65536) else pos (65535 - n % 65536)

module _ (Double : Type 0) where
  -- What the storage of a field holds.
  pub data Value : Type 0 where
    text : Bytes → Value
    flag : Bool → Value
    number : ℤ → Value
    double : Double → Value

  -- `Register::Field`, with the value in place of the pointer to it.
  pub record Field : Type 0 where
    pub kind : Bytes
    pub name : Bytes
    pub stored : Value
    pub defval : Bytes
    pub valmutable : Bool

-- `line.empty() || line[0] == '#' || line[0] == ';'`
unfoldable pub is_skipped : Bytes → Bool
is_skipped [] = true
is_skipped (c ∷ s) = c == b'#' || c == b';'

-- `_s_field_map`; it is empty before the first registration.
abbrev pub FieldMap : Type 0 → Type 0
FieldMap Double = List (Bytes × Field Double)

module _ {Double : Type 0} where
  unfoldable pub find_field : FieldMap Double → Bytes → Option (Field Double)
  find_field [] key = none
  find_field ((name, f) ∷ fields) key =
      let later = find_field fields key in if same name key then some f else later

  -- `insert` of a pair: a name that is there keeps its field.
  unfoldable pub register : FieldMap Double → Bytes → Field Double → FieldMap Double
  register fields name f = elim (find_field fields name) [
    | some g ↦ fields
    | none ↦ (name, f) ∷ fields
  ]

  unfoldable pub store_field : FieldMap Double → Bytes → Field Double → FieldMap Double
  store_field [] key f = []
  store_field ((name, g) ∷ fields) key f =
      if same name key then (name, f) ∷ fields else (name, g) ∷ store_field fields key f

module _ {Double : Type 0} (stod : Bytes → Option Double) where
  -- The chain of comparisons of the constructor and of `set_value`: the new value for a text, where the
  -- old one is `old`; `none` is an exception of the conversion.
  unfoldable pub convert : Bytes → Value Double → Bytes → Option (Value Double)
  convert kind old s =
      if same kind (codes "std::string")
      then some (text s)
      else if same kind (codes "bool")
      then some (flag (same s (codes "true") || same s (codes "1")))
      else if same kind (codes "int16_t")
      then Option.map (λ (n : ℤ). number (int16 n)) (stoi s)
      else if same kind (codes "int32_t")
      then Option.map (λ (n : ℤ). number n) (stoi s)
      else if same kind (codes "int64_t")
      then Option.map (λ (n : ℤ). number n) (stoll s)
      else if same kind (codes "double")
      then Option.map (λ (d : Double). double d) (stod s)
      else some old

  unfoldable pub set_value : Field Double → Bytes → Option (Field Double)
  set_value f s =
      Option.map (λ (v : Value Double). record f { stored = v }) (convert f.kind f.stored s)

  -- The constructor of a field whose storage holds `old`.
  unfoldable pub make_field : Bytes → Bytes → Value Double → Bytes → Bool → Option (Field Double)
  make_field kind name old defval valmutable =
      Option.map
        (λ (v : Value Double). record {
          kind = kind;
          name = name;
          stored = v;
          defval = defval;
          valmutable = valmutable;
        })
        (convert kind old defval)

  -- The end of a round of the loop of `init`: whether no exception was thrown, and the fields.
  unfoldable pub assign : FieldMap Double → Bytes → Bytes → Bool × FieldMap Double
  assign fields key value = elim (find_field fields key) [
    | none ↦ (true, fields)
    | some f ↦ elim (set_value f value) [
      | none ↦ (false, fields)
      | some f' ↦ (true, store_field fields key f')
    ]
  ]

  unfoldable pub read_line : FieldMap Double → Bytes → Bool × FieldMap Double
  read_line fields line = if is_skipped line then (true, fields) else elim (split_equals line) [
    | none ↦ (true, fields)
    | some (key, value) ↦ assign fields (trim key) (trim value)
  ]

  unfoldable pub read_lines : FieldMap Double → List Bytes → Bool × FieldMap Double
  read_lines fields [] = (true, fields)
  read_lines fields (line ∷ rest) =
      let (ok, fields') = read_line fields line in
      let others = read_lines fields' rest in if ok then others else (false, fields')

  -- `init` of the file's bytes, if it opens: whether it returns true (else it throws), and the fields.
  unfoldable pub init : Option Bytes → FieldMap Double → Bool × FieldMap Double
  init none fields = (false, fields)
  init (some file) fields = read_lines fields (lines file)
