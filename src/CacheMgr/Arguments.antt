-- ===== src/CacheMgr/Arguments.antt =====
-- Which arguments `main` of tool/dns_cache_mgr.c accepts.
use mathlib.Core.Path.{ap₂}
use mathlib.Core.Option.{some-injective}
use chinadns_ng.Prelude.{
  ◌≤◌, ◌<◌, ◌≡◌, ◌↔◌, refl, sym, subst, false, some, List, [], ◌∷◌, ◌++◌, arith, ltb, length,
  length-append, equal, equal_refl, eq_of_equal, Bool-cases, inl, inr, none_ne, ltb→lt, lt→ltb,
}
use chinadns_ng.Prelude.Words.{Bytes}
use chinadns_ng.CacheMgr.{Options, max_suffixes, parse_args}

-- One option with its value.
pub data Choice : Type 0 where
  in_file : Bytes → Choice
  of_suffix : Bytes → Choice

abbrev pub file_flag : Bytes
file_flag = b'-' ∷ b'f' ∷ []

abbrev pub suffix_flag : Bytes
suffix_flag = b'-' ∷ b'r' ∷ []

-- The choices as arguments.
abbrev pub args_of : List Choice → List Bytes
args_of [] = []
args_of (in_file path ∷ cs) = file_flag ∷ path ∷ args_of cs
args_of (of_suffix suffix ∷ cs) = suffix_flag ∷ suffix ∷ args_of cs

-- The options that they ask for: the last path, and all suffixes in order.
abbrev pub choose : List Choice → Options → Options
choose [] options = options
choose (in_file path ∷ cs) options = choose cs (record options { path = path })
choose (of_suffix suffix ∷ cs) options =
    choose cs (record options { suffixes = options.suffixes ++ suffix ∷ [] })

-- The arguments are options with values, at most ten suffixes among them.
abbrev pub AreOptions : List Bytes → Options → Options → Type 0
AreOptions args options chosen =
    (cs : List Choice) × (args ≡ args_of cs)
    × (chosen ≡ choose cs options)
    × (length chosen.suffixes ≤ max_suffixes)

length-suffixes :
    (cs : List Choice) (options : Options)
    → length options.suffixes ≤ length ((choose cs options).suffixes)
length-suffixes [] options = omega arith
length-suffixes (in_file path ∷ cs) options = length-suffixes cs (record options { path = path })
length-suffixes (of_suffix suffix ∷ cs) options = omega (
  arith,
  length-append options.suffixes (suffix ∷ []),
  length-suffixes cs (record options { suffixes = options.suffixes ++ suffix ∷ [] }),
)

flags_differ : equal suffix_flag file_flag ≡ false
unfolding equal
flags_differ = refl

parse_args-args_of :
    (cs : List Choice) (options : Options)
    → length ((choose cs options).suffixes) ≤ max_suffixes
    → parse_args (args_of cs) options ≡ some (choose cs options)
unfolding parse_args
parse_args-args_of [] options h = refl
parse_args-args_of (in_file path ∷ cs) options h =
    rw (equal_refl file_flag) (parse_args-args_of cs (record options { path = path }) h)
parse_args-args_of (of_suffix suffix ∷ cs) options h =
    let next : Options = record options { suffixes = options.suffixes ++ suffix ∷ [] } in
    let room : length options.suffixes < max_suffixes =
      omega (arith, length-append options.suffixes (suffix ∷ []), length-suffixes cs next) in
    rw (flags_differ, equal_refl suffix_flag, lt→ltb (length options.suffixes) max_suffixes room)
      (parse_args-args_of cs next h)

value_first :
    (arg flag value : Bytes) (args rest : List Bytes)
    → arg ≡ flag
    → args ≡ rest
    → arg ∷ value ∷ args ≡ flag ∷ value ∷ rest
value_first arg flag value args rest e es = ap₂ (λ a t. a ∷ value ∷ t) e es

parse_args_sound :
    (args : List Bytes) (options chosen : Options)
    → length options.suffixes ≤ max_suffixes
    → parse_args args options ≡ some chosen
    → AreOptions args options chosen
unfolding parse_args
parse_args_sound [] options chosen few h = (
  [],
  refl,
  sym (some-injective options chosen h),
  subst (λ o. length (o.suffixes) ≤ max_suffixes) (some-injective options chosen h) few,
)
parse_args_sound (arg ∷ []) options chosen few h = absurd (none_ne h)
parse_args_sound (arg ∷ value ∷ args) options chosen few h =
    elim (Bool-cases (equal arg file_flag)) [
      | inl is_file ↦
          let (cs, e, r, le) =
            parse_args_sound args (record options { path = value }) chosen few (rw is_file at h) in
          (
            in_file value ∷ cs,
            value_first arg file_flag value args (args_of cs) (eq_of_equal arg file_flag is_file) e,
            r,
            le,
          )
      | inr other ↦ elim (Bool-cases (equal arg suffix_flag)) [
        | inl is_suffix ↦ elim (Bool-cases (ltb (length options.suffixes) max_suffixes)) [
          | inl room ↦
              let (cs, e, r, le) =
                parse_args_sound args (record options { suffixes = options.suffixes ++ value ∷ [] })
                  chosen
                  (omega (
                    arith,
                    length-append options.suffixes (value ∷ []),
                    ltb→lt (length options.suffixes) max_suffixes room,
                  ))
                  (rw (other, is_suffix, room) at h) in
              (
                of_suffix value ∷ cs,
                value_first arg suffix_flag value args (args_of cs)
                    (eq_of_equal arg suffix_flag is_suffix) e,
                r,
                le,
              )
          | inr full ↦ absurd (none_ne (rw (other, is_suffix, full) at h))
        ]
        | inr unknown ↦ absurd (none_ne (rw (other, unknown) at h))
      ]
    ]

-- The program goes on exactly if its arguments are `-f` and `-r` options with their values, at most
-- ten suffixes with those there are; then it has the last path and all suffixes in order.
pub parse_args-AreOptions :
    (args : List Bytes) (options chosen : Options)
    → length options.suffixes ≤ max_suffixes
    → (parse_args args options ≡ some chosen) ↔ AreOptions args options chosen
parse_args-AreOptions args options chosen few = (
  parse_args_sound args options chosen few,
  (λ (cs, e, r, le).
      subst (λ a. parse_args a options ≡ some chosen) (sym e)
        (subst (λ o. parse_args (args_of cs) options ≡ some o) (sym r)
          (parse_args-args_of cs options (subst (λ o. length (o.suffixes) ≤ max_suffixes) r le)))),
)
