-- ===== src/Examples/Naming.antt =====
-- creusot/src/naming.rs: names of a small crate.
use creusot.Prelude.{
  ℕ, zero, suc, ◌<◌, true, List, [], ◌∷◌, ◌++◌, none, some, ◌≡◌, refl, arith, All, map, ◌==◌, ◌||◌,
  some_eq,
}
use creusot.Prelude.Decimal.{Text, codes, decimal}
use creusot.Prelude.Texts.{text_eq}
use creusot.Naming.{
  translate_name, translate_char, value_name, type_name, variable_name, to_alphanumeric, head_is,
  is_ascii_lowercase, translate_accessor_name,
}
use creusot.Naming.Decode.{decode, decode-translate_name, strip_prefix, strip_prefix-value_name}
use creusot.Naming.Shape.{IsFragment, translate_name-IsFragment, IsWordChar, variable_name_valid}
use creusot.Naming.Path.{
  Tcx, DefKey, ModulePath, Segment, why3_ident, new, pop, ident_path_segments, ident_path_segments_,
  segment_at, segment_name,
}
use creusot.Naming.Path.Items.{
  key, Descends, ident_path_segments_-Descends, new-total, why3_ident-new,
}

decimal_runs : decimal 1203 ≡ codes "1203"
unfolding decimal
decimal_runs = refl

translate_name_runs : translate_name (codes "_a__qy-") ≡ codes "qy95zaqy95z_qy113zyqy45z"
unfolding translate_name translate_char decimal
translate_name_runs = refl

variable_name_runs : variable_name (codes "X'") ≡ codes "v_X_39_"
unfolding variable_name to_alphanumeric decimal
variable_name_runs = refl

accessor_runs : translate_accessor_name (codes "t_x") (codes "y") ≡ codes "t_t_x__y"
unfolding translate_accessor_name type_name translate_name translate_char
accessor_runs = refl

decode-translate_name_example : decode (translate_name (codes "_qy9z_")) ≡ codes "_qy9z_"
decode-translate_name_example = decode-translate_name (codes "_qy9z_")

strip_prefix-value_name_example :
    (strip_prefix b'v' (value_name (codes "v_1")) ≡ codes "v_1")
    × (strip_prefix b't' (type_name (codes "v_1")) ≡ codes "v_1")
strip_prefix-value_name_example = strip_prefix-value_name (codes "v_1")

translate_name-IsFragment_example : IsFragment (translate_name (codes "__init__"))
translate_name-IsFragment_example = translate_name-IsFragment (codes "__init__")

variable_name_valid_example :
    All IsWordChar (variable_name (codes "X'"))
    × (head_is (λ c. is_ascii_lowercase c || c == b'_') (variable_name (codes "X'")) ≡ true)
variable_name_valid_example = variable_name_valid (codes "X'")

-- A crate in which item `suc n` stands in item `n`, and item 1 is an impl.
abbrev small_key : ℕ → ℕ → DefKey Text
small_key krate zero = record { parent = none; last = [] }
small_key krate (suc index) = record { parent = some index; last = codes "f_" ++ decimal index }

small_parent_lt : (krate index p : ℕ) → (small_key krate index).parent ≡ some p → p < index
small_parent_lt krate zero p e = absurd (cc e)
small_parent_lt krate (suc index) p e = omega (arith, some_eq e)

abbrev small_crate : Tcx
small_crate = record {
  DefPathData = Text;
  is_impl = λ d. text_eq d (codes "f_0");
  render = λ d. d;
  crate_name = λ _. codes "my_crate";
  def_key = small_key;
  impl_hash = λ krate index. 17;
  parent_lt = small_parent_lt;
}

new_runs :
    new small_crate 0 2
    ≡ some (record { path = codes "my_crate" ∷ codes "qyi17" ∷ []; basename = codes "f_1" })
unfolding new pop ident_path_segments ident_path_segments_ segment_at segment_name translate_name
    translate_char decimal text_eq
new_runs = refl

why3_ident_runs :
    why3_ident (record { path = codes "a" ∷ codes "b" ∷ []; basename = codes "f" })
    ≡ codes "M_a__b__f"
unfolding why3_ident
why3_ident_runs = refl

ident_path_segments_-Descends_example :
    (segs : List (Segment Text)) × (ident_path_segments_ small_crate 0 2 ≡ some segs)
    × Descends small_crate 0 2 segs
ident_path_segments_-Descends_example = ident_path_segments_-Descends small_crate 0 2

new-total_example :
    (segs : List (Segment Text)) × (m : ModulePath) × (ident_path_segments_ small_crate 0 2
      ≡ some segs)
    × (new small_crate 0 2 ≡ some m)
    × (m.path ++ m.basename ∷ []
        ≡ translate_name (codes "my_crate") ∷ map (segment_name small_crate) segs)
new-total_example = new-total small_crate 0 2

segments_at_2 :
    ident_path_segments_ small_crate 0 2 ≡ some (Segment.impl 17 ∷ Segment.other (codes "f_1") ∷ [])
unfolding ident_path_segments_ segment_at text_eq decimal
segments_at_2 = refl

why3_ident-new_example :
    (codes "my_crate" ≡ codes "my_crate")
    × (map (key small_crate) (Segment.impl 17 ∷ Segment.other (codes "f_1") ∷ [])
        ≡ map (key small_crate) (Segment.impl 17 ∷ Segment.other (codes "f_1") ∷ []))
why3_ident-new_example =
    why3_ident-new small_crate 0 2 0 2 new_runs new_runs segments_at_2 segments_at_2 refl
