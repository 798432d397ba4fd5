-- ===== src/Tag.antt =====
-- src/tag.c: the table `s_tag_to_name` of tag names and its four functions. The table is the list of
-- its nine entries, `none` for NULL; a name is its bytes without the terminator.
pub mod Lookup
pub mod Register
use chinadns_ng.Prelude.{
  ℕ, zero, suc, ◌+◌, ◌-◌, Bool, true, false, not, ◌&&◌, ◌||◌, Option, none, some, List, [], ◌∷◌,
  ltb, leb, ◌==◌, if◌then◌else◌, length, get_or, set, equal,
}
use chinadns_ng.Prelude.Words.{Bytes}

abbrev pub tag_chn : ℕ
tag_chn = 0

abbrev pub tag_gfw : ℕ
tag_gfw = 1

abbrev pub tag_user : ℕ
tag_user = 2

abbrev pub tag_max : ℕ
tag_max = 7

abbrev pub tag_none : ℕ
tag_none = tag_max + 1

-- `(u8)-1`
abbrev pub no_tag : ℕ
no_tag = 255

abbrev pub Names : Type 0
Names = List (Option Bytes)

-- The table as the program starts with it.
abbrev pub initial_names : Names
initial_names =
    some (b'c' ∷ b'h' ∷ b'n' ∷ [])
    ∷ some (b'g' ∷ b'f' ∷ b'w' ∷ [])
    ∷ none
    ∷ none
    ∷ none
    ∷ none
    ∷ none
    ∷ none
    ∷ some (b'n' ∷ b'o' ∷ b'n' ∷ b'e' ∷ [])
    ∷ []

abbrev pub is_name : Bytes → Option Bytes → Bool
is_name name none = false
is_name name (some other) = equal other name

-- The loop of `tag_from_name`, at `tag`, on the entries from there.
unfoldable pub find_name : Names → ℕ → Bytes → ℕ
find_name [] tag name = no_tag
find_name (entry ∷ names) tag name =
    let next = find_name names (tag + 1) name in if is_name name entry then tag else next

unfoldable pub tag_from_name : Names → Bytes → ℕ
tag_from_name names name = find_name names 0 name

unfoldable pub tag_is_valid : Names → ℕ → Bool
tag_is_valid names tag =
    ltb tag (length names) && (elim (get_or names tag none) [ none ↦ false | some name ↦ true ])

-- "(null)"
abbrev pub null_name : Bytes
null_name = b'(' ∷ b'n' ∷ b'u' ∷ b'l' ∷ b'l' ∷ b')' ∷ []

unfoldable pub tag_to_name : Names → ℕ → Bytes
tag_to_name names tag =
    if ltb tag (length names)
    then (elim (get_or names tag none) [ none ↦ null_name | some name ↦ name ])
    else null_name

abbrev pub is_name_char : ℕ → Bool
is_name_char c =
    (leb b'0' c && leb c b'9')
    || (leb b'a' c && leb c b'z')
    || (leb b'A' c && leb c b'Z')
    || (c == b'_')

unfoldable pub is_name_text : Bytes → Bool
is_name_text [] = true
is_name_text (c ∷ name) = is_name_char c && is_name_text name

-- The first free entry among `count` from `tag` on.
unfoldable pub find_free : ℕ → ℕ → Names → Option ℕ
find_free zero tag names = none
find_free (suc count) tag names =
    let next = find_free count (tag + 1) names in
    elim (get_or names tag none) [ none ↦ some tag | some name ↦ next ]

-- The tag or `no_tag`, what is stored at `p_overflow` (`none` if nothing is), and the table.
pub record Registered : Type 0 where
  pub tag : ℕ
  pub overflow : Option Bool
  pub names : Names

abbrev pub register_failed : Names → Bool → Registered
register_failed names overflow = record { tag = no_tag; overflow = some overflow; names = names }

unfoldable pub tag_register : Names → Bytes → Registered
tag_register names name =
    let tag = tag_from_name names name in
    if not (tag == no_tag)
    then (if tag == tag_chn || tag == tag_gfw || tag == tag_none
        then register_failed names false
        else record { tag = tag; overflow = none; names = names })
    else if not (is_name_text name)
    then register_failed names false
    else (elim (find_free (tag_max + 1 - tag_user) tag_user names) [
      | none ↦ register_failed names true
      | some free ↦ record { tag = free; overflow = none; names = set names free (some name) }
    ])
