-- ===== src/Dnl/Init.antt =====
-- src/dnl.c: `dnl_init`, on the names that `load_list` has for each tag. `calc_hashv` is a parameter.
pub mod Priority
use chinadns_ng.Prelude.{
  ℕ, zero, suc, ◌+◌, ◌-◌, ◌^◌, Bool, Option, none, some, List, [], ◌∷◌, ◌++◌, ◌==◌, if◌then◌else◌,
  length, replicate, map,
}
use chinadns_ng.Prelude.Words.{Bytes}
use chinadns_ng.Tag.{tag_chn, tag_gfw, tag_user, tag_max}
use chinadns_ng.Dnl.Table.{Name, Dnl, free, calc_lcap, add_list, add_name}

unfoldable pub dnl_set_notnull : ℕ → Dnl
dnl_set_notnull in_lcap = record {
  map1 = record { buckets = replicate (2 ^ in_lcap) free; lcap = in_lcap; nlists = 0; nitems = 0 };
  map2 = none;
}

-- The loop over the tags, on those below `n`.
unfoldable pub count_names : (ℕ → List Bytes) → ℕ → ℕ
count_names loaded zero = 0
count_names loaded (suc n) = count_names loaded n + length (loaded n)

-- The loop over the user-defined tags: the `n` of them from TAG__USER, from the last down.
unfoldable pub user_tags : ℕ → List ℕ
user_tags zero = []
user_tags (suc n) = (tag_user + n) ∷ user_tags n

-- High to low.
unfoldable pub ordered_tags : Bool → List ℕ
ordered_tags gfwlist_first =
    user_tags (tag_max + 1 - tag_user)
    ++ (if gfwlist_first then tag_gfw ∷ tag_chn ∷ [] else tag_chn ∷ tag_gfw ∷ [])

module _ (calc_hashv : Bytes → ℕ) (loaded : ℕ → List Bytes) where
  -- The names of a tag, as `dnl_add_name` writes them.
  abbrev pub names_of : ℕ → List Name
  names_of tag = map (λ name. add_name calc_hashv name tag) (loaded tag)

  -- The loop over the ordered tags, with the number of the names added.
  unfoldable pub add_tags : List ℕ → ℕ → Dnl → ℕ × Dnl
  add_tags [] total_added dnl = (total_added, dnl)
  add_tags (tag ∷ tags) total_added dnl =
      let (added, next) = add_list (names_of tag) dnl in
      let skip = add_tags tags total_added dnl in
      let go = add_tags tags (total_added + added) next in
      if length (loaded tag) == 0 then skip else go

  -- `none`: the lists stay null.
  unfoldable pub dnl_init : Bool → Option Dnl
  dnl_init gfwlist_first =
      let total_count = count_names loaded (tag_max + 1) in
      let (_, dnl) =
        add_tags (ordered_tags gfwlist_first) 0 (dnl_set_notnull (calc_lcap total_count)) in
      if total_count == 0 then none else some dnl
