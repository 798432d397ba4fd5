-- ===== src/Dnl/Load/Listed.antt =====
-- What reading the domain lists of src/dnl.c gives: names of one to eight labels whose number is
-- noted as a level in use.
use chinadns_ng.Prelude.{
  ℕ, zero, suc, ◌≤◌, ◌≡◌, refl, sym, ap, ◌∙◌, subst, Bool, true, false, Option, none, some, List,
  [], ◌∷◌, ◌++◌, arith, ltb, ◌==◌, length, All, All-append, inl, inr, Bool-cases, Option-cases,
  length-append, equal, ltb→lt,
}
use chinadns_ng.Prelude.Words.{Bytes, c_string}
use chinadns_ng.Dns.Header.{name_maxlen}
use chinadns_ng.Dns.Name.Labels.{HasNoDot, dotted}
use chinadns_ng.Dnl.{Levels, note_level, check_name}
use chinadns_ng.Dnl.Accepted.{IsAccepted, check_name-IsAccepted}
use chinadns_ng.Dnl.Suffix.{has_interest}
use chinadns_ng.Dnl.Load.{
  Files, Input, load_words, end_token, read_tokens, dnl_load_list_gz, has_gz_suffix, load_file,
  load_list, load_tags,
}
use chinadns_ng.Dnl.Load.Noted.{
  AreNoted, note_level-AreNoted, has_interest-kept, has_interest-noted,
}

-- A name of labels whose number is in use, of at most 253 bytes.
abbrev pub IsListed : Levels → Bytes → Type 0
IsListed levels name =
    (ls : List Bytes) × (name ≡ dotted ls)
    × All HasNoDot ls
    × (1 ≤ length ls)
    × (has_interest levels (length ls) ≡ true)
    × (length name ≤ name_maxlen)

-- Every level in use stays so.
abbrev pub AreKept : Levels → Levels → Type 0
AreKept levels levels' =
    (level : ℕ) → has_interest levels level ≡ true → has_interest levels' level ≡ true

IsListed-AreKept :
    (levels levels' : Levels) (names : List Bytes)
    → AreKept levels levels'
    → All (IsListed levels) names
    → All (IsListed levels') names
IsListed-AreKept levels levels' [] kept v = tt
IsListed-AreKept levels levels' (name ∷ names) kept v =
    let ((ls, e, nd, some_label, asked, short), vs) = v in
    (
      (ls, e, nd, some_label, kept (length ls) asked, short),
      IsListed-AreKept levels levels' names kept vs,
    )

-- The result of reading: the names are listed in the levels, which only grow.
abbrev pub IsLoaded : Levels → List Bytes → Levels → Type 0
IsLoaded levels names levels' =
    AreNoted levels' × AreKept levels levels' × All (IsListed levels') names

IsLoaded-refl : (levels : Levels) → AreNoted levels → IsLoaded levels [] levels
IsLoaded-refl levels w = (w, (λ level h. h), tt)

IsLoaded-append :
    (levels levels' levels'' : Levels) (names more : List Bytes)
    → IsLoaded levels names levels'
    → IsLoaded levels' more levels''
    → IsLoaded levels (names ++ more) levels''
IsLoaded-append levels levels' levels'' names more (w, kept, v) (w', kept', v') = (
  w',
  (λ level h. kept' level (kept level h)),
  All-append (IsListed levels'') names more (IsListed-AreKept levels' levels'' names kept' v) v',
)

-- The words are short enough for the buffer.
abbrev pub AreWords : List Bytes → Type 0
AreWords = All (λ word. length word ≤ name_maxlen)

length-c_string : (buf : Bytes) → length (c_string buf) ≤ length buf
unfolding c_string
length-c_string [] = omega arith
length-c_string (c ∷ buf) = ground (arith, length-c_string buf)

-- The name that is accepted, behind the level that is noted.
IsAccepted-IsListed :
    (levels : Levels) (name kept : Bytes) (level : ℕ)
    → AreNoted levels
    → length name ≤ name_maxlen
    → IsAccepted name kept level
    → IsLoaded levels (kept ∷ []) (note_level levels level)
IsAccepted-IsListed levels name kept level w short
      (ls, e, v, nd, count, some_level, few, (before, split, _)) =
    (
      note_level-AreNoted levels level w some_level few,
      (λ other h. has_interest-kept levels level other w.is_byte few h),
      (
        (
          ls,
          e,
          nd,
          omega (arith, count),
          ap (has_interest (note_level levels level)) (sym count)
              ∙ has_interest-noted levels level w.is_byte few,
          omega (arith, ap length split, length-append before kept),
        ),
        tt,
      ),
    )

abbrev added : Option Bytes → List Bytes
added none = []
added (some kept) = kept ∷ []

added-append :
    (name : Option Bytes) (names : List Bytes)
    → added name ++ names ≡ (elim name [ none ↦ names | some kept ↦ kept ∷ names ])
added-append none names = refl
added-append (some kept) names = refl

check_name-IsLoaded :
    (levels : Levels) (name : Bytes)
    → AreNoted levels
    → length name ≤ name_maxlen
    → let (result, levels') = check_name levels name in IsLoaded levels (added result) levels'
check_name-IsLoaded levels name w short = elim (check_name-IsAccepted levels name) [
  | inl (refused, same) ↦
      subst (λ r. IsLoaded levels (added r) (check_name levels name).1) (sym refused)
        (subst (IsLoaded levels []) (sym same) (IsLoaded-refl levels w))
  | inr (kept, level, accepted, noted, is_accepted) ↦
      subst (λ r. IsLoaded levels (added r) (check_name levels name).1) (sym accepted)
        (subst (IsLoaded levels (kept ∷ [])) (sym noted)
          (IsAccepted-IsListed levels name kept level w short is_accepted))
]

load_words-IsLoaded :
    (words : List Bytes) (levels : Levels)
    → AreWords words
    → AreNoted levels
    → let (names, levels') = load_words words levels in IsLoaded levels names levels'
unfolding load_words
load_words-IsLoaded [] levels v w = IsLoaded-refl levels w
load_words-IsLoaded (word ∷ words) levels v w =
    let (name, noted) = check_name levels (c_string word) in
    let (names, last) = load_words words noted in
    let first : IsLoaded levels (added name) noted =
      check_name-IsLoaded levels (c_string word) w (omega (arith, length-c_string word, v.0)) in
    subst (λ ns. IsLoaded levels ns last) (added-append name names)
      (IsLoaded-append levels noted last (added name) names first
        (load_words-IsLoaded words noted v.1 first.0))

-- A token under way fits the buffer.
abbrev IsToken : Option Bytes → Type 0
IsToken none = Unit {0}
IsToken (some token) = length token ≤ name_maxlen

end_token-AreWords :
    (token : Option Bytes) (tokens : List Bytes)
    → IsToken token
    → AreWords tokens
    → AreWords (end_token token tokens)
unfolding end_token
end_token-AreWords none tokens h v = v
end_token-AreWords (some []) tokens h v = v
end_token-AreWords (some (b ∷ token)) tokens h v = (h, v)

read_tokens-AreWords :
    (is_whitespace : ℕ → Bool) (failed : Bool) (token : Option Bytes) (stream : Bytes)
    → IsToken token
    → AreWords (read_tokens is_whitespace failed token stream)
unfolding read_tokens
read_tokens-AreWords is_whitespace true token [] h = tt
read_tokens-AreWords is_whitespace false token [] h = end_token-AreWords token [] h tt
read_tokens-AreWords is_whitespace failed none (b ∷ stream) h =
    elim (Bool-cases (is_whitespace b)) [
      | inl e ↦ rw e (read_tokens-AreWords is_whitespace failed (some []) stream (omega arith))
      | inr e ↦ rw e (read_tokens-AreWords is_whitespace failed none stream tt)
    ]
read_tokens-AreWords is_whitespace failed (some token) (b ∷ stream) h =
    elim (Bool-cases (is_whitespace b)) [
      | inl e ↦ rw e (
          end_token-AreWords (some token) (read_tokens is_whitespace failed (some []) stream) h
            (read_tokens-AreWords is_whitespace failed (some []) stream (omega arith)))
      | inr e ↦ elim (Bool-cases (ltb (length token) name_maxlen)) [
        | inl room ↦
            rw (e, room)
              (read_tokens-AreWords is_whitespace failed (some (token ++ b ∷ [])) stream (
                omega
                  (arith, length-append token (b ∷ []), ltb→lt (length token) name_maxlen room)))
        | inr full ↦ rw (e, full) (read_tokens-AreWords is_whitespace failed none stream tt)
      ]
    ]

-- What the scanner promises: the words fit the buffer.
abbrev pub AreScanned : Files → Type 0
AreScanned files =
    (fname : Bytes) (words : List Bytes) → files.scan fname ≡ some words → AreWords words

module _ (files : Files) (scanned : AreScanned files) where
  load_file-IsLoaded :
      (fname : Bytes) (input : Input)
      → AreWords input.stdin
      → AreNoted input.levels
      → let (names, next) = load_file files fname input in
        IsLoaded input.levels names next.levels × AreWords next.stdin
  unfolding load_file dnl_load_list_gz
  load_file-IsLoaded fname input v w = elim (Bool-cases (equal fname (b'-' ∷ []))) [
    | inl dash ↦ rw dash (load_words-IsLoaded input.stdin input.levels v w, tt)
    | inr path ↦ elim (Bool-cases (has_gz_suffix fname)) [
      | inl gz ↦ elim (Option-cases (files.gunzip fname)) [
        | inl closed ↦ rw (path, gz, closed) (IsLoaded-refl input.levels w, v)
        | inr ((stream, failed), opened) ↦
            rw (path, gz, opened)
              (
                load_words-IsLoaded (read_tokens files.is_whitespace failed (some []) stream)
                    input.levels
                    (read_tokens-AreWords files.is_whitespace failed (some []) stream (omega arith))
                    w,
                v,
              )
      ]
      | inr text ↦ elim (Option-cases (files.scan fname)) [
        | inl closed ↦ rw (path, text, closed) (IsLoaded-refl input.levels w, v)
        | inr (words, opened) ↦
            rw (path, text, opened)
              (load_words-IsLoaded words input.levels (scanned fname words opened) w, v)
      ]
    ]
  ]

  load_list-IsLoaded :
      (filenames : List Bytes) (input : Input)
      → AreWords input.stdin
      → AreNoted input.levels
      → let (names, last) = load_list files filenames input in
        IsLoaded input.levels names last.levels × AreWords last.stdin
  unfolding load_list
  load_list-IsLoaded [] input v w = (IsLoaded-refl input.levels w, v)
  load_list-IsLoaded (fname ∷ filenames) input v w =
      let (names, next) = load_file files fname input in
      let (more, last) = load_list files filenames next in
      let (first, v') = load_file-IsLoaded fname input v w in
      let (second, v'') = load_list-IsLoaded filenames next v' first.0 in
      (IsLoaded-append input.levels next.levels last.levels names more first second, v'')

  -- The names of every tag are listed in the levels behind the last file.
  pub load_tags-IsLoaded :
      (tag_to_filenames : ℕ → List Bytes) (n : ℕ) (input : Input)
      → AreWords input.stdin
      → AreNoted input.levels
      → let (loaded, last) = load_tags files tag_to_filenames n input in
        AreNoted last.levels
        × AreWords last.stdin
        × ((tag : ℕ) → All (IsListed last.levels) (loaded tag))
  unfolding load_tags
  load_tags-IsLoaded tag_to_filenames zero input v w = (w, v, (λ tag. tt))
  load_tags-IsLoaded tag_to_filenames (suc n) input v w =
      let (loaded, next) = load_tags files tag_to_filenames n input in
      let (names, last) = load_list files (tag_to_filenames n) next in
      let (w', v', listed) = load_tags-IsLoaded tag_to_filenames n input v w in
      let (second, v'') = load_list-IsLoaded (tag_to_filenames n) next v' w' in
      (
        second.0,
        v'',
        (λ tag. elim (Bool-cases (tag == n)) [
          | inl here ↦ rw here second.2
          | inr other ↦
              rw other (IsListed-AreKept next.levels last.levels (loaded tag) second.1 (listed tag))
        ]),
      )
