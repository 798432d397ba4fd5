-- ===== src/Dnl/Load/Tagged.antt =====
-- src/dnl.c from the files to the answer: the tag of a name is that of its longest suffix in the lists.
use native.Mathlib.Nat.{zero-div}
use mathlib.Core.Path.{fun_ext}
use mathlib.Core.Bool.{false≢true}
use chinadns_ng.Prelude.{
  ℕ, suc, ◌+◌, ◌-◌, ◌^◌, ◌≤◌, ◌<◌, ◌≡◌, ◌≢◌, refl, sym, ap, ◌∙◌, subst, Bool, false, Option, none,
  some, List, [], ◌∷◌, ◌++◌, arith, ◌==◌, if◌then◌else◌, length, All, inl, inr, Bool-cases,
  Option-cases, equal, eq_of_equal, ==_ne, le→ltb,
}
use chinadns_ng.Prelude.Words.{Bytes}
use chinadns_ng.Tag.{tag_max}
use chinadns_ng.Dns.Name.Labels.{HasNoDot, dot_labels, dotted}
use chinadns_ng.Dnl.{Levels}
use chinadns_ng.Dnl.Table.{Dnl, exists_in_dnl}
use chinadns_ng.Dnl.Table.Chain.{or_else, or_else-none}
use chinadns_ng.Dnl.Table.Lookup.{or_else_assoc}
use chinadns_ng.Dnl.Suffix.{has_interest, get_suffix, find_tag, dnl_get_tag}
use chinadns_ng.Dnl.Suffix.Labels.{listed_suffixes, get_suffix-listed_suffixes}
use chinadns_ng.Dnl.Init.{ordered_tags, dnl_init}
use chinadns_ng.Dnl.Init.Priority.{has_name, first_tag, dnl_init-first_tag}
use chinadns_ng.Dnl.Load.{Files, Input, initial_levels, initial_input, load_tags}
use chinadns_ng.Dnl.Load.Noted.{AreNoted}
use chinadns_ng.Dnl.Load.Listed.{IsListed, AreWords, AreScanned, load_tags-IsLoaded}

-- The tag of the longest suffix of the labels that has one.
unfoldable pub longest_tag : (Bytes → Option ℕ) → List Bytes → Option ℕ
longest_tag lookup [] = none
longest_tag lookup (l ∷ ls) = or_else (lookup (dotted (l ∷ ls))) (longest_tag lookup ls)

find_tag-cons :
    (exists : Bytes → Option ℕ) (suffix : Bytes) (suffixes : List Bytes)
    → find_tag exists (suffix ∷ suffixes) ≡ or_else (find_tag exists suffixes) (exists suffix)
unfolding find_tag
find_tag-cons exists suffix suffixes = elim (Option-cases (find_tag exists suffixes)) [
  | inl miss ↦ rw miss refl
  | inr (tag, hit) ↦ rw hit refl
]

find_tag-snoc :
    (exists : Bytes → Option ℕ) (suffixes : List Bytes) (suffix : Bytes)
    → find_tag exists (suffixes ++ suffix ∷ []) ≡ or_else (exists suffix) (find_tag exists suffixes)
unfolding find_tag
find_tag-snoc exists [] suffix = sym (or_else-none (exists suffix))
find_tag-snoc exists (first ∷ suffixes) suffix =
    find_tag-cons exists first (suffixes ++ suffix ∷ [])
    ∙ ap (λ o. or_else o (exists first)) (find_tag-snoc exists suffixes suffix)
    ∙ or_else_assoc (exists suffix) (find_tag exists suffixes) (exists first)
    ∙ ap (or_else (exists suffix)) (sym (find_tag-cons exists first suffixes))

-- A name whose number of labels is not in use is in no list.
abbrev IsQuiet : (Bytes → Option ℕ) → Levels → Type 0
IsQuiet exists levels =
    (ls : List Bytes)
    → All HasNoDot ls
    → 1 ≤ length ls
    → has_interest levels (length ls) ≡ false
    → exists (dotted ls) ≡ none

find_tag-longest_tag :
    (exists : Bytes → Option ℕ) (levels : Levels) (ls : List Bytes)
    → IsQuiet exists levels
    → All HasNoDot ls
    → find_tag exists (listed_suffixes levels ls) ≡ longest_tag exists ls
unfolding find_tag longest_tag listed_suffixes
find_tag-longest_tag exists levels [] quiet v = refl
find_tag-longest_tag exists levels (l ∷ ls) quiet v =
    elim (Bool-cases (has_interest levels (length (l ∷ ls)))) [
      | inl asked ↦ rw asked (
          find_tag-snoc exists (listed_suffixes levels ls) (dotted (l ∷ ls))
          ∙ ap (or_else (exists (dotted (l ∷ ls))))
              (find_tag-longest_tag exists levels ls quiet v.1))
      | inr other ↦
          rw (other, quiet (l ∷ ls) v (omega arith) other)
            (find_tag-longest_tag exists levels ls quiet v.1)
    ]

abbrev count_dots : Bytes → ℕ
count_dots [] = 0
count_dots (c ∷ cs) = let rest = count_dots cs in if c == b'.' then suc rest else rest

count_dots-label : (l rest : Bytes) → HasNoDot l → count_dots (l ++ rest) ≡ count_dots rest
count_dots-label [] rest v = refl
count_dots-label (c ∷ l) rest v = rw (==_ne c b'.' v.0) (count_dots-label l rest v.1)

count_dots-dot_labels : (ls : List Bytes) → All HasNoDot ls → count_dots (dot_labels ls) ≡ length ls
count_dots-dot_labels [] v = refl
count_dots-dot_labels (l ∷ ls) v =
    ap suc (count_dots-label l (dot_labels ls) v.0 ∙ count_dots-dot_labels ls v.1)

count_dots-dotted :
    (ls : List Bytes) → All HasNoDot ls → 1 ≤ length ls → suc (count_dots (dotted ls)) ≡ length ls
count_dots-dotted [] v h = absurd (omega arith)
count_dots-dotted (l ∷ ls) v h =
    ap suc (count_dots-label l (dot_labels ls) v.0 ∙ count_dots-dot_labels ls v.1)

-- Labels without dots have one dotted form for one number of them.
length-dotted :
    (ls ks : List Bytes)
    → All HasNoDot ls
    → All HasNoDot ks
    → 1 ≤ length ls
    → 1 ≤ length ks
    → dotted ls ≡ dotted ks
    → length ls ≡ length ks
length-dotted ls ks v w some_l some_k e =
    sym (count_dots-dotted ls v some_l)
    ∙ ap (λ name. suc (count_dots name)) e
    ∙ count_dots-dotted ks w some_k

has_name-quiet :
    (levels : Levels) (names ls : List Bytes)
    → All (IsListed levels) names
    → All HasNoDot ls
    → 1 ≤ length ls
    → has_interest levels (length ls) ≡ false
    → has_name names (dotted ls) ≡ false
unfolding has_name
has_name-quiet levels [] ls listed v some_label other = refl
has_name-quiet levels (name ∷ names) ls ((ks, at, w, some_k, asked, short), listed) v some_label
      other =
    elim (Bool-cases (equal name (dotted ls))) [
      | inl hit ↦
          let same : length ks ≡ length ls =
            length-dotted ks ls w v some_k some_label (sym at ∙ eq_of_equal name (dotted ls) hit) in
          absurd (false≢true (sym other ∙ ap (has_interest levels) (sym same) ∙ asked))
      | inr miss ↦ rw miss (has_name-quiet levels names ls listed v some_label other)
    ]

first_tag-none :
    (loaded : ℕ → List Bytes) (tags : List ℕ) (text : Bytes)
    → ((tag : ℕ) → has_name (loaded tag) text ≡ false)
    → first_tag loaded tags text ≡ none
unfolding first_tag
first_tag-none loaded [] text none_has = refl
first_tag-none loaded (tag ∷ tags) text none_has =
    rw (none_has tag) (first_tag-none loaded tags text none_has)

first_tag-IsQuiet :
    (loaded : ℕ → List Bytes) (levels : Levels) (tags : List ℕ)
    → ((tag : ℕ) → All (IsListed levels) (loaded tag))
    → IsQuiet (first_tag loaded tags) levels
first_tag-IsQuiet loaded levels tags listed ls v some_label other =
    first_tag-none loaded tags (dotted ls)
      (λ tag. has_name-quiet levels (loaded tag) ls (listed tag) v some_label other)

initial_levels-AreNoted : AreNoted initial_levels
initial_levels-AreNoted = record {
  is_byte = omega arith;
  bounded = λ level past. rw (zero-div (2 ^ (level - 1))) refl;
}

IsListed-short :
    (levels : Levels) (names : List Bytes)
    → All (IsListed levels) names
    → All (λ name. length name < 256) names
IsListed-short levels [] listed = tt
IsListed-short levels (name ∷ names) ((ks, at, w, some_k, asked, short), listed) =
    (omega (arith, short), IsListed-short levels names listed)

abbrev pub or_default : Option ℕ → ℕ → ℕ
or_default none default_tag = default_tag
or_default (some tag) default_tag = tag

dnl_get_tag-find_tag :
    (calc_hashv : Bytes → ℕ) (dnl : Dnl) (levels : Levels) (name : Bytes) (default_tag : ℕ)
    → 1 ≤ length name
    → length name ≤ 255
    → dnl_get_tag calc_hashv (some dnl) levels name default_tag
      ≡ some (
          or_default (find_tag (exists_in_dnl calc_hashv dnl) (get_suffix levels name)) default_tag)
unfolding dnl_get_tag
dnl_get_tag-find_tag calc_hashv dnl levels name default_tag some_char short =
    let ne : length name ≢ 0 = omega (arith, some_char) in
    elim (Option-cases (find_tag (exists_in_dnl calc_hashv dnl) (get_suffix levels name))) [
      | inl miss ↦ rw (==_ne (length name) 0 ne, le→ltb 255 (length name) short, miss) refl
      | inr (tag, hit) ↦ rw (==_ne (length name) 0 ne, le→ltb 255 (length name) short, hit) refl
    ]

module _ (calc_hashv : Bytes → ℕ) (files : Files) (tag_to_filenames : ℕ → List Bytes) where
  -- With the lists read from the files, where the scanner's words fit its buffer: the tag of a
  -- name of 1 to 255 bytes is the one that the longest of its suffixes in any list has, the first in
  -- the order of the tags if several have it, and the default if no suffix is listed.
  pub dnl_get_tag-longest_tag :
      (stdin : List Bytes) (gfwlist_first : Bool) (l : Bytes) (ls : List Bytes) (default_tag : ℕ)
      {loaded : ℕ → List Bytes} {input : Input} {dnl : Dnl}
      → AreScanned files
      → AreWords stdin
      → load_tags files tag_to_filenames (tag_max + 1) (initial_input stdin) ≡ (loaded, input)
      → dnl_init calc_hashv loaded gfwlist_first ≡ some dnl
      → All HasNoDot (l ∷ ls)
      → 1 ≤ length (dotted (l ∷ ls))
      → length (dotted (l ∷ ls)) ≤ 255
      → dnl_get_tag calc_hashv (some dnl) input.levels (dotted (l ∷ ls)) default_tag
        ≡ some (
            or_default
              (longest_tag (first_tag loaded (ordered_tags gfwlist_first)) (l ∷ ls))
              default_tag)
  dnl_get_tag-longest_tag stdin gfwlist_first l ls default_tag {loaded} {input} {dnl} scanned words
        read init v some_char short =
      let tags : List ℕ = ordered_tags gfwlist_first in
      let from_files =
        load_tags-IsLoaded files scanned tag_to_filenames (tag_max + 1) (initial_input stdin) words
          initial_levels-AreNoted in
      let noted : AreNoted input.levels = subst (λ p. AreNoted (p.1.levels)) read from_files.0 in
      let listed : (tag : ℕ) → All (IsListed input.levels) (loaded tag) =
        subst (λ p. (tag : ℕ) → All (IsListed (p.1.levels)) (p.0 tag)) read from_files.2 in
      let (_, lookup) =
        dnl_init-first_tag calc_hashv loaded gfwlist_first
          (λ tag. IsListed-short input.levels (loaded tag) (listed tag)) init in
      let same : exists_in_dnl calc_hashv dnl ≡ first_tag loaded tags = fun_ext lookup in
      let found : find_tag (exists_in_dnl calc_hashv dnl)
            (get_suffix input.levels (dotted (l ∷ ls)))
          ≡ longest_tag (first_tag loaded tags) (l ∷ ls) =
        ap (find_tag (exists_in_dnl calc_hashv dnl))
          (get_suffix-listed_suffixes input.levels l ls noted.bounded v)
        ∙ ap (λ exists. find_tag exists (listed_suffixes input.levels (l ∷ ls))) same
        ∙ find_tag-longest_tag (first_tag loaded tags) input.levels (l ∷ ls)
            (first_tag-IsQuiet loaded input.levels tags listed) v in
      dnl_get_tag-find_tag calc_hashv dnl input.levels (dotted (l ∷ ls)) default_tag some_char short
      ∙ ap (λ o. some (or_default o default_tag)) found
