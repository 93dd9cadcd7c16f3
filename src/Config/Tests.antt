-- ===== src/Config/Tests.antt =====
-- A configuration file, and the fields of src/common/config.cpp.
use blp_cache.Config.Lines.{unlines, Lacks}
use blp_cache.Prelude.Int.{pos}
use blp_cache.Decimal.{in_signed, read_number, stoi}
use blp_cache.Config.{
  store_field, init, set_value, find_field, assign, int16, convert, split_equals, text, number,
  Field, is_skipped, FieldMap, make_field,
}
use blp_cache.Config.Settings.{
  init-items, assign_items, written_item, setting, ignored, Item, IsItem,
}
use blp_cache.Prelude.{
  All, Bool, Bytes, List, Option, [], arith, codes, false, inl, map, none, not, refl, same, some,
  true, ℕ, ◌&&◌, ◌==◌, ◌∷◌, ◌≡◌,
}

-- No field is a `double`: any reader of them serves.
abbrev no_doubles : Bytes → Option (Unit {0})
no_doubles s = none

abbrev port : Field (Unit {0})
port = record {
  kind = codes "int16_t";
  name = codes "port";
  stored = number (pos 6479);
  defval = codes "6479";
  valmutable = false;
}

port_made :
    make_field no_doubles (codes "int16_t") (codes "port") (number (pos 0)) (codes "6479") false
    ≡ some port
unfolding make_field convert same stoi int16 read_number in_signed
port_made = refl

abbrev model : Field (Unit {0})
model = record {
  kind = codes "std::string";
  name = codes "model";
  stored = text (codes "master");
  defval = codes "master";
  valmutable = false;
}

abbrev fields : FieldMap (Unit {0})
fields = (codes "model", model) ∷ (codes "port", port) ∷ []

abbrev settings : List Item
settings =
    ignored (codes "# the ports")
    ∷ setting [] (codes "port") (codes " ") (codes " ") (codes "7000") []
    ∷ ignored []
    ∷ setting (codes "\t") (codes "replicate_port") [] [] (codes "6480") (codes " ")
    ∷ []

abbrev lacking : ℕ → Bytes → Bool
lacking b [] = true
lacking b (c ∷ s) = not (c == b) && lacking b s

lacking-Lacks : (b : ℕ) (s : Bytes) → lacking b s ≡ true → Lacks b s
lacking-Lacks b [] h = tt
lacking-Lacks b (c ∷ s) h = (ground arith, lacking-Lacks b s (ground arith))

settings-IsItem : All IsItem settings
unfolding is_skipped split_equals
settings-IsItem = (
  (lacking-Lacks b'\n' (codes "# the ports") refl, inl refl),
  (
    record {
      around_key = (tt, (refl, tt));
      around_value = ((refl, tt), tt);
      key_stripped = record { starts = refl; ends = refl };
      value_stripped = record { starts = refl; ends = refl };
      key_bytes = (lacking-Lacks b'=' (codes "port") refl, lacking-Lacks b'\n' (codes "port") refl);
      value_bytes = lacking-Lacks b'\n' (codes "7000") refl;
      no_comment = ((λ e. cc), refl, refl);
    },
    (
      (tt, inl refl),
      (
        record {
          around_key = ((refl, tt), tt);
          around_value = (tt, (refl, tt));
          key_stripped = record { starts = refl; ends = refl };
          value_stripped = record { starts = refl; ends = refl };
          key_bytes = (
            lacking-Lacks b'=' (codes "replicate_port") refl,
            lacking-Lacks b'\n' (codes "replicate_port") refl,
          );
          value_bytes = lacking-Lacks b'\n' (codes "6480") refl;
          no_comment = ((λ e. cc), refl, refl);
        },
        tt,
      ),
    ),
  ),
)

init-items_example :
    init no_doubles (some (unlines (map written_item settings))) fields
    ≡ assign_items no_doubles fields settings
init-items_example = init-items no_doubles fields settings settings-IsItem

-- The name in the file is not the one that is registered: the setting is passed over.
settings_read : assign_items no_doubles fields settings ≡ (
  true,
  (codes "model", model) ∷ (codes "port", record port { stored = number (pos 7000) }) ∷ [],
)
unfolding assign find_field store_field set_value convert same stoi int16 read_number in_signed
settings_read = refl
