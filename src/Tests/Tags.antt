-- ===== src/Tests/Tags.antt =====
-- Registration of tags.
use chinadns_ng.Prelude.{◌≡◌, ◌⊎◌, refl, [], ◌∷◌, true, equal}
use chinadns_ng.Prelude.Words.{Bytes}
use chinadns_ng.Tag.{
  initial_names, tag_from_name, tag_to_name, tag_is_valid, find_name, is_name_text, find_free,
  tag_register,
}
use chinadns_ng.Tag.Lookup.{HasName, tag_from_name-tag_to_name}
use chinadns_ng.Tag.Register.{
  IsTable, IsRegistered, IsRefused, initial_names-IsTable, tag_register-IsTable,
  tag_register-HasName,
}

program : Unit {0}
unfolding tag_from_name tag_to_name tag_is_valid find_name is_name_text find_free tag_register equal
program = tt

abbrev name_x : Bytes
name_x = b'x' ∷ b'_' ∷ b'1' ∷ []

abbrev name_chn : Bytes
name_chn = b'c' ∷ b'h' ∷ b'n' ∷ []

registered : (tag_register initial_names name_x).tag ≡ 2
unfolding program
registered = refl

found_again : tag_from_name (tag_register initial_names name_x).names name_x ≡ 2
unfolding program
found_again = refl

built_in_refused : (tag_register initial_names name_chn).tag ≡ 255
unfolding program
built_in_refused = refl

bad_text_refused : (tag_register initial_names (b'a' ∷ b'-' ∷ [])).tag ≡ 255
unfolding program
bad_text_refused = refl

tag_register-IsTable_example :
    let r = tag_register initial_names name_x in
    IsTable r.names × (IsRegistered initial_names name_x r ⊎ IsRefused initial_names r)
tag_register-IsTable_example = tag_register-IsTable initial_names name_x initial_names-IsTable

tag_register-HasName_example : HasName (tag_register initial_names name_x).names 0 name_chn
tag_register-HasName_example =
    tag_register-HasName initial_names name_x name_chn 0 initial_names-IsTable refl

tag_from_name-tag_to_name_example :
    (tag_from_name initial_names name_chn ≡ 0)
    × (tag_to_name initial_names 0 ≡ name_chn)
    × (tag_is_valid initial_names 0 ≡ true)
tag_from_name-tag_to_name_example =
    tag_from_name-tag_to_name initial_names 0 name_chn initial_names-IsTable.are_distinct refl
