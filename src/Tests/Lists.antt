-- ===== src/Tests/Lists.antt =====
-- Names of the domain lists.
use chinadns_ng.Prelude.{
  ◌*◌, arith, ◌+◌, zero, suc, true, List, ℕ, map, equal, ◌≡◌, ◌⊎◌, refl, some, none, [], ◌∷◌,
}
use chinadns_ng.Prelude.Words.{Bytes, byte}
use chinadns_ng.Dnl.{Levels, check_loop, note_level, is_refused, check_name}
use chinadns_ng.Dnl.Table.{
  Name, SecondMap, add_names, add_list, add_name, free, Dnl, calc_lcap_loop, calc_lcap, is_in_list,
  store_in_second, resize_list, resize_bucket, resize_buckets, resize_map2, redo, new_map2,
  add_to_map2, move_to_map2, add_at, add_to_dnl, exists_in_list, exists_in_dnl,
}
use chinadns_ng.Dnl.Suffix.{memrchr, suffix_loop, get_suffix, find_tag, dnl_get_tag}
use chinadns_ng.Dnl.Init.{dnl_set_notnull, count_names, user_tags, ordered_tags, add_tags, dnl_init}
use chinadns_ng.Dnl.Init.Priority.{
  has_name, first_tag, AreShort, dnl_set_notnull-IsDnl, dnl_init-first_tag,
}
use chinadns_ng.Dnl.Table.Chain.{or_else}
use chinadns_ng.Dnl.Table.Lookup.{IsDnl}
use chinadns_ng.Dnl.Table.Added.{exists_in_dnl-add_names}
use chinadns_ng.Dnl.Accepted.{IsAccepted}
use chinadns_ng.Dnl.Load.Checked.{IsDomain, IsNoting, check_name-IsNoting}

program : Unit {0}
unfolding check_loop note_level is_refused check_name calc_lcap_loop calc_lcap is_in_list
    store_in_second resize_list resize_bucket resize_buckets resize_map2 redo new_map2 add_to_map2
    move_to_map2 add_at add_to_dnl exists_in_list exists_in_dnl memrchr suffix_loop get_suffix
    find_tag dnl_get_tag equal add_names add_list add_name dnl_set_notnull count_names user_tags
    ordered_tags add_tags dnl_init has_name first_tag
program = tt

abbrev no_levels : Levels
no_levels = record { level_interest = 0; level_max = 0 }

abbrev name_ab : Bytes
name_ab = b'a' ∷ b'.' ∷ b'b' ∷ []

accepts_ab :
    check_name no_levels name_ab ≡ (some name_ab, record { level_interest = 2; level_max = 2 })
unfolding program
accepts_ab = refl

-- Nine labels are cut to eight.
abbrev eight : Bytes
eight =
    b'b' ∷ b'.' ∷ b'c' ∷ b'.' ∷ b'd' ∷ b'.' ∷ b'e' ∷ b'.' ∷ b'f' ∷ b'.' ∷ b'g' ∷ b'.' ∷ b'h' ∷ b'.'
    ∷ b'i' ∷ []

cuts_nine :
    check_name no_levels (b'a' ∷ b'.' ∷ eight)
    ≡ (some eight, record { level_interest = 128; level_max = 8 })
unfolding program
cuts_nine = refl

comment_refused : check_name no_levels (b'#' ∷ name_ab) ≡ (none, no_levels)
unfolding program
comment_refused = refl

check_name-IsNoting_example :
    let (result, levels') = check_name no_levels name_ab in
    ((result ≡ none) × (levels' ≡ no_levels) × (¬ IsDomain name_ab))
    ⊎ ((kept : Bytes) × (level : ℕ) × (result ≡ some kept)
        × IsAccepted name_ab kept level
        × IsNoting no_levels level levels')
check_name-IsNoting_example = check_name-IsNoting no_levels name_ab (omega arith)

-- A hash that makes all names collide in the L1 map: names are added until they move to the L2 map.
abbrev first_byte : Bytes → ℕ
first_byte text = byte text 0

abbrev one_bucket : Dnl
one_bucket = record {
  map1 = record { buckets = free ∷ []; lcap = 0; nlists = 0; nitems = 0 };
  map2 = none;
}

abbrev add : Dnl → ℕ → ℕ → Dnl
add dnl c tag = add_to_dnl dnl (record { text = c ∷ []; tag = tag; hashv = c })

abbrev five_names : Dnl
five_names = add (add (add (add (add one_bucket 1 0) 2 1) 3 2) 4 3) 21 4

abbrev six_names : Dnl
six_names = add five_names 6 5

moves_to_second : five_names.map1.nitems ≡ 0
unfolding program
moves_to_second = refl

finds_all :
    map (λ c. exists_in_dnl first_byte six_names (c ∷ [])) (1 ∷ 2 ∷ 3 ∷ 4 ∷ 21 ∷ 6 ∷ 7 ∷ [])
    ≡ some 0 ∷ some 1 ∷ some 2 ∷ some 3 ∷ some 4 ∷ some 5 ∷ none ∷ []
unfolding program
finds_all = refl

first_added_wins : exists_in_dnl first_byte (add (add one_bucket 1 7) 1 0) (1 ∷ []) ≡ some 7
unfolding program
first_added_wins = refl

-- "c.a.b" has the suffixes "b", "a.b" and itself; levels 1 and 2 are in use.
longest_suffix_wins :
    get_suffix (record { level_interest = 3; level_max = 2 }) (b'c' ∷ b'.' ∷ name_ab)
    ≡ (b'b' ∷ []) ∷ name_ab ∷ []
unfolding program
longest_suffix_wins = refl

-- The second name is a duplicate, so two of three are new.
adds_two : (add_list (map (λ c. add_name first_byte (c ∷ []) 1) (1 ∷ 1 ∷ 2 ∷ [])) one_bucket).0 ≡ 2
unfolding program
adds_two = refl

-- Eight names that all hash to 0: the ones from the sixth on go to the L2 map directly.
abbrev many : List Name
many = map (λ c. record { text = c ∷ []; tag = c; hashv = 0 }) (1 ∷ 2 ∷ 3 ∷ 4 ∷ 5 ∷ 6 ∷ 7 ∷ 1 ∷ [])

abbrev no_hash : Bytes → ℕ
no_hash text = 0

exists_in_dnl-add_names_example :
    exists_in_dnl no_hash (add_names many (dnl_set_notnull 1)) (5 ∷ [])
    ≡ or_else (exists_in_dnl no_hash (dnl_set_notnull 1) (5 ∷ [])) (exists_in_list many 0 (5 ∷ []))
exists_in_dnl-add_names_example =
    exists_in_dnl-add_names no_hash many (dnl_set_notnull 1) (5 ∷ []) (dnl_set_notnull-IsDnl 1)

-- The name "a" is in the lists of the tags 0 and 3, and "b" in that of the tag 1.
abbrev two_lists : ℕ → List Bytes
two_lists zero = (b'a' ∷ []) ∷ []
two_lists (suc zero) = (b'b' ∷ []) ∷ []
two_lists (suc (suc zero)) = []
two_lists (suc (suc (suc zero))) = (b'a' ∷ []) ∷ []
two_lists (suc (suc (suc (suc n)))) = []

abbrev two_lists-AreShort : AreShort two_lists
two_lists-AreShort zero = (omega arith, tt)
two_lists-AreShort (suc zero) = (omega arith, tt)
two_lists-AreShort (suc (suc zero)) = tt
two_lists-AreShort (suc (suc (suc zero))) = (omega arith, tt)
two_lists-AreShort (suc (suc (suc (suc n)))) = tt

abbrev two_lists_dnl : Dnl
two_lists_dnl =
    (add_tags first_byte two_lists (ordered_tags true) 0 (dnl_set_notnull (calc_lcap 3))).1

init_gives : dnl_init first_byte two_lists true ≡ some two_lists_dnl
unfolding program
init_gives = refl

dnl_init-first_tag_example :
    IsDnl two_lists_dnl
    × ((text : Bytes)
        → exists_in_dnl first_byte two_lists_dnl text
          ≡ first_tag two_lists (ordered_tags true) text)
dnl_init-first_tag_example =
    dnl_init-first_tag first_byte two_lists true two_lists-AreShort init_gives

user_tag_wins : first_tag two_lists (ordered_tags true) (b'a' ∷ []) ≡ some 3
unfolding program
user_tag_wins = refl

-- Twelve names fill the sixteen buckets of a new L2 map.
abbrev fill : List Name → SecondMap → SecondMap
fill [] map2 = map2
fill (name ∷ names) map2 = fill names (redo (0 + 2) map2 name)

abbrev twelve : List Name
twelve =
    map (λ c. record { text = c ∷ []; tag = 0; hashv = 5 * c })
      (1 ∷ 2 ∷ 3 ∷ 4 ∷ 5 ∷ 6 ∷ 7 ∷ 8 ∷ 9 ∷ 10 ∷ 11 ∷ 12 ∷ [])

abbrev full_map : SecondMap
full_map = fill twelve (new_map2 1)

abbrev full_map_grown : SecondMap
full_map_grown = elim (resize_map2 full_map) [ none ↦ full_map | some resized ↦ resized ]

resize_gives : resize_map2 full_map ≡ some full_map_grown
unfolding program
resize_gives = refl
