-- ===== src/Config/Settings.antt =====
-- What `init` makes of a configuration file.
use blp_cache.Config.{
  init, read_lines, assign, split_equals, read_line, is_blank, FieldMap, is_skipped,
}
use blp_cache.Config.Lines.{lines-unlines, unlines, Lacks, split_equals-first, Lacks-append}
use blp_cache.Config.Trim.{AreBlank, IsStripped, trim-padded}
use blp_cache.Prelude.{
  All, Bool, Bool-cases, Bytes, List, Option, [], ap, arith, false, if◌then◌else◌, inl, inr, map,
  none, refl, some, true, ℕ, ◌++◌, ◌==◌, ◌∙◌, ◌∷◌, ◌≡◌, ◌≢◌, ◌⊎◌,
}

-- A line of a file: a setting with blanks around its parts, or a line that sets nothing.
pub data Item : Type 0 where
  setting : (a key b c value d : Bytes) → Item
  ignored : Bytes → Item

abbrev pub written_item : Item → Bytes
written_item (setting a key b c value d) = (a ++ (key ++ b)) ++ (b'=' ∷ (c ++ (value ++ d)))
written_item (ignored line) = line

abbrev pub first_is : ℕ → Bytes → Bool
first_is b [] = false
first_is b (c ∷ s) = c == b

pub record IsSetting (a key b c value d : Bytes) : Type 0 where
  pub around_key : AreBlank a × AreBlank b
  pub around_value : AreBlank c × AreBlank d
  pub key_stripped : IsStripped key
  pub value_stripped : IsStripped value
  pub key_bytes : Lacks b'=' key × Lacks b'\n' key
  pub value_bytes : Lacks b'\n' value
  pub no_comment : (key ≢ []) × (first_is b'#' key ≡ false) × (first_is b';' key ≡ false)

abbrev pub IsItem : Item → Type 0
IsItem (setting a key b c value d) = IsSetting a key b c value d
IsItem (ignored line) = Lacks b'\n' line × ((is_skipped line ≡ true) ⊎ (split_equals line ≡ none))

AreBlank-Lacks : (b : ℕ) (s : Bytes) → is_blank b ≡ false → AreBlank s → Lacks b s
AreBlank-Lacks b [] e h = tt
AreBlank-Lacks b (c ∷ s) e (p, h) = (ground arith, AreBlank-Lacks b s e h)

setting-is_skipped :
    (a key b c value d : Bytes)
    → IsSetting a key b c value d
    → is_skipped (written_item (setting a key b c value d)) ≡ false
unfolding is_skipped
setting-is_skipped [] [] b c value d v = absurd (v.no_comment.0 refl)
setting-is_skipped [] (k ∷ key) b c value d v = ground (arith, v.no_comment.1, v.no_comment.2)
setting-is_skipped (x ∷ a) key b c value d v = ground (arith, v.around_key.0.0)

padded-Lacks :
    (b : ℕ) (l m r : Bytes)
    → is_blank b ≡ false
    → AreBlank l × AreBlank r
    → Lacks b m
    → Lacks b (l ++ (m ++ r))
padded-Lacks b l m r e (hl, hr) h =
    Lacks-append b l (m ++ r) (AreBlank-Lacks b l e hl)
      (Lacks-append b m r h (AreBlank-Lacks b r e hr))

written_item-Lacks : (i : Item) → IsItem i → Lacks b'\n' (written_item i)
written_item-Lacks (ignored line) h = h.0
written_item-Lacks (setting a key b c value d) v =
    Lacks-append b'\n' (a ++ (key ++ b)) (b'=' ∷ (c ++ (value ++ d)))
      (padded-Lacks b'\n' a key b refl v.around_key v.key_bytes.1)
      (refl, padded-Lacks b'\n' c value d refl v.around_value v.value_bytes)

written_items-Lacks :
    (items : List Item) → All IsItem items → All (Lacks b'\n') (map written_item items)
written_items-Lacks [] h = tt
written_items-Lacks (i ∷ items) (h, hs) = (written_item-Lacks i h, written_items-Lacks items hs)

module _ {Double : Type 0} (stod : Bytes → Option Double) where
  -- What the items of a file do to the fields, one after the other, until a value is refused.
  abbrev pub assign_item : FieldMap Double → Item → Bool × FieldMap Double
  assign_item fields (setting a key b c value d) = assign stod fields key value
  assign_item fields (ignored line) = (true, fields)

  abbrev pub assign_items : FieldMap Double → List Item → Bool × FieldMap Double
  assign_items fields [] = (true, fields)
  assign_items fields (i ∷ items) =
      if (assign_item fields i).0
      then assign_items (assign_item fields i).1 items
      else (false, (assign_item fields i).1)

  read_line-item :
      (fields : FieldMap Double) (i : Item)
      → IsItem i
      → read_line stod fields (written_item i) ≡ assign_item fields i
  unfolding read_line
  read_line-item fields (ignored line) (h, inl e) = rw e refl
  read_line-item fields (ignored line) (h, inr e) = elim (Bool-cases (is_skipped line)) [
    | inl s ↦ rw s refl
    | inr s ↦ rw (s, read_line, e) refl
  ]
  read_line-item fields (setting a key b c value d) v =
      let before = a ++ (key ++ b) in
      let lacks = padded-Lacks b'=' a key b refl v.around_key v.key_bytes.0 in
      let found = split_equals-first before (c ++ (value ++ d)) lacks in
      rw (
        setting-is_skipped a key b c value d v,
        read_line,
        found,
        trim-padded a key b v.around_key.0 v.around_key.1 v.key_stripped,
        trim-padded c value d v.around_value.0 v.around_value.1 v.value_stripped,
      )

  read_lines-items :
      (fields : FieldMap Double) (items : List Item)
      → All IsItem items
      → read_lines stod fields (map written_item items) ≡ assign_items fields items
  unfolding read_lines
  read_lines-items fields [] h = refl
  read_lines-items fields (i ∷ items) (h, hs) =
      rw (read_line-item fields i h, read_lines)
        (ap
          (λ (r : Bool × FieldMap Double).
            if (assign_item fields i).0 then r else (false, (assign_item fields i).1))
          (read_lines-items (assign_item fields i).1 items hs))

  -- A configuration file of lines that each end in a newline and are a setting, with any blanks around its
  -- key and its value, or a comment, an empty line or a line without `=`: `init` assigns the values to the
  -- keys in order, and ends early, with an exception, exactly at the first value that its field refuses.
  -- A key is not empty, lacks `=` and starts with no comment sign; a value may hold `=`; both are stripped.
  pub init-items :
      (fields : FieldMap Double) (items : List Item)
      → All IsItem items
      → init stod (some (unlines (map written_item items))) fields ≡ assign_items fields items
  unfolding init
  init-items fields items h =
      ap (read_lines stod fields)
        (lines-unlines (map written_item items) (written_items-Lacks items h))
      ∙ read_lines-items fields items h
