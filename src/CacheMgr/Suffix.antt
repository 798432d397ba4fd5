-- ===== src/CacheMgr/Suffix.antt =====
-- The suffix test of `delete` in tool/dns_cache_mgr.c, on the labels of the two names.
use mathlib.Core.Bool.{false≢true}
use chinadns_ng.Prelude.{
  ℕ, suc, ◌+◌, ◌-◌, ◌≤◌, ◌≡◌, ◌≢◌, ◌↔◌, ◌⊎◌, refl, sym, ap, ◌∙◌, subst, true, ◌||◌, List, [], ◌∷◌,
  ◌++◌, arith, leb, ◌==◌, if◌then◌else◌, length, take, drop, All, inl, inr, Bool-cases, append-nil,
  append_assoc, length-append, take-append-drop, equal, eq_of_equal, equal_refl, ==_iff, ==_ne,
  ==_refl, le→leb, leb→le,
}
use chinadns_ng.Prelude.Words.{Bytes, byte, drop-byte, byte-middle, drop-suc}
use chinadns_ng.Dns.Name.Labels.{HasNoDot, dotted}
use chinadns_ng.CacheMgr.{has_suffix, is_removed}

-- The parts of a text between its dots; there is always one.
abbrev add_char : ℕ → List Bytes → List Bytes
add_char c [] = (c ∷ []) ∷ []
add_char c (l ∷ ls) = (c ∷ l) ∷ ls

abbrev split_dots : Bytes → List Bytes
split_dots [] = [] ∷ []
split_dots (c ∷ cs) = let rest = split_dots cs in if c == b'.' then [] ∷ rest else add_char c rest

split_dots-label :
    (l rest : Bytes) → HasNoDot l → split_dots (l ++ b'.' ∷ rest) ≡ l ∷ split_dots rest
split_dots-label [] rest v = refl
split_dots-label (c ∷ l) rest v =
    rw (==_ne c b'.' v.0) (ap (add_char c) (split_dots-label l rest v.1))

split_dots-last : (l : Bytes) → HasNoDot l → split_dots l ≡ l ∷ []
split_dots-last [] v = refl
split_dots-last (c ∷ l) v = rw (==_ne c b'.' v.0) (ap (add_char c) (split_dots-last l v.1))

-- Splitting finds the labels again.
split_dots-dotted :
    (l : Bytes) (ls : List Bytes) → All HasNoDot (l ∷ ls) → split_dots (dotted (l ∷ ls)) ≡ l ∷ ls
split_dots-dotted l [] v = ap split_dots (append-nil l) ∙ split_dots-last l v.0
split_dots-dotted l (m ∷ ls) v =
    split_dots-label l (dotted (m ∷ ls)) v.0 ∙ ap (λ t. l ∷ t) (split_dots-dotted m ls v.1)

add_char-append :
    (c : ℕ) (before rest : List Bytes)
    → 1 ≤ length before
    → add_char c before ++ rest ≡ add_char c (before ++ rest)
add_char-append c [] rest h = absurd (omega arith)
add_char-append c (l ∷ before) rest h = refl

split_dots-some : (text : Bytes) → 1 ≤ length (split_dots text)
split_dots-some [] = omega arith
split_dots-some (c ∷ text) = elim (Bool-cases (c == b'.')) [
  | inl dot ↦ rw dot (omega arith)
  | inr other ↦ rw other (add_char-some c (split_dots text))
]
  where
    add_char-some : (c : ℕ) (ls : List Bytes) → 1 ≤ length (add_char c ls)
    add_char-some c [] = omega arith
    add_char-some c (l ∷ ls) = omega arith

-- A dot between two texts splits them.
split_dots-append :
    (before rest : Bytes)
    → split_dots (before ++ b'.' ∷ rest) ≡ split_dots before ++ split_dots rest
split_dots-append [] rest = refl
split_dots-append (c ∷ before) rest = elim (Bool-cases (c == b'.')) [
  | inl dot ↦ rw dot (ap (λ t. [] ∷ t) (split_dots-append before rest))
  | inr other ↦ rw other (
      ap (add_char c) (split_dots-append before rest)
      ∙ sym (add_char-append c (split_dots before) (split_dots rest) (split_dots-some before)))
]

-- The name is the suffix, or ends in it behind a dot.
abbrev pub IsBehindDot : Bytes → Bytes → Type 0
IsBehindDot name suffix = (name ≡ suffix) ⊎ ((before : Bytes) × (name ≡ before ++ b'.' ∷ suffix))

split_at_dot :
    (name : Bytes) (start : ℕ)
    → 1 ≤ start
    → start ≤ length name
    → (byte name (start - 1) == b'.') ≡ true
    → name ≡ take (start - 1) name ++ b'.' ∷ drop start name
split_at_dot name start some_char le dot =
    let whole : suc (start - 1) ≡ start = omega (arith, some_char) in
    sym (take-append-drop (start - 1) name)
    ∙ ap (λ t. take (start - 1) name ++ t)
        (drop-byte name (start - 1) (omega (arith, some_char, le))
          ∙ ap (λ c. c ∷ drop (suc (start - 1)) name) ((==_iff (byte name (start - 1)) b'.').0 dot)
          ∙ ap (λ n. b'.' ∷ drop n name) whole)

has_suffix-split : (name suffix : Bytes) → has_suffix name suffix ≡ true → IsBehindDot name suffix
unfolding has_suffix
has_suffix-split name suffix h =
    let start : ℕ = length name - length suffix in
    let (fits, (same, boundary)) : (leb (length suffix) (length name) ≡ true)
        × ((equal (drop start name) suffix ≡ true)
            × (((length name == length suffix) || (byte name (start - 1) == b'.')) ≡ true)) =
      ground arith in
    let le : length suffix ≤ length name = leb→le (length suffix) (length name) fits in
    let tail : drop start name ≡ suffix = eq_of_equal (drop start name) suffix same in
    elim (Bool-cases (length name == length suffix)) [
      | inl whole ↦
          let e : length name ≡ length suffix = (==_iff (length name) (length suffix)).0 whole in
          let zero_start : 0 ≡ start = omega (arith, e) in
          inl (ap (λ n. drop n name) zero_start ∙ tail)
      | inr longer ↦
          let ne : length name ≢ length suffix = ground arith in
          inr (
            take (start - 1) name,
            split_at_dot name start (omega (arith, le, ne)) (omega arith) (rw longer at boundary)
                ∙ ap (λ t. take (start - 1) name ++ b'.' ∷ t) tail,
          )
    ]

has_suffix_self : (name : Bytes) → has_suffix name name ≡ true
unfolding has_suffix
has_suffix_self name =
    let start : length name - length name ≡ 0 = omega arith in
    rw
      (
        start,
        le→leb (length name) (length name) (omega arith),
        equal_refl name,
        ==_refl (length name),
      )
      refl

has_suffix-append : (before suffix : Bytes) → has_suffix (before ++ b'.' ∷ suffix) suffix ≡ true
unfolding has_suffix
has_suffix-append before suffix =
    let name : Bytes = before ++ b'.' ∷ suffix in
    let len : length name ≡ length before + suc (length suffix) =
      length-append before (b'.' ∷ suffix) in
    let start : length name - length suffix ≡ suc (length before) = omega (arith, len) in
    let ne : length name ≢ length suffix = omega (arith, len) in
    let at : suc (length before) - 1 ≡ length before = omega arith in
    rw
      (
        start,
        at,
        le→leb (length suffix) (length name) (omega (arith, len)),
        drop-suc before suffix b'.',
        equal_refl suffix,
        ==_ne (length name) (length suffix) ne,
        byte-middle before suffix b'.',
      )
      refl

dotted-append :
    (l : Bytes) (before ls : List Bytes) (k : Bytes)
    → dotted ((l ∷ before) ++ k ∷ ls) ≡ dotted (l ∷ before) ++ b'.' ∷ dotted (k ∷ ls)
dotted-append l [] ls k = ap (λ t. t ++ b'.' ∷ dotted (k ∷ ls)) (sym (append-nil l))
dotted-append l (m ∷ before) ls k =
    ap (λ t. l ++ b'.' ∷ t) (dotted-append m before ls k)
    ∙ sym (append_assoc l (b'.' ∷ dotted (m ∷ before)) (b'.' ∷ dotted (k ∷ ls)))

has_suffix-dotted :
    (before : List Bytes) (k : Bytes) (ks : List Bytes)
    → has_suffix (dotted (before ++ k ∷ ks)) (dotted (k ∷ ks)) ≡ true
has_suffix-dotted [] k ks = has_suffix_self (dotted (k ∷ ks))
has_suffix-dotted (l ∷ before) k ks =
    subst (λ name. has_suffix name (dotted (k ∷ ks)) ≡ true) (sym (dotted-append l before ks k))
      (has_suffix-append (dotted (l ∷ before)) (dotted (k ∷ ks)))

has_suffix-IsBehindDot :
    (name suffix : Bytes) → (has_suffix name suffix ≡ true) ↔ IsBehindDot name suffix
has_suffix-IsBehindDot name suffix = (
  has_suffix-split name suffix,
  (λ ends. elim ends [
    | inl e ↦ subst (λ t. has_suffix t suffix ≡ true) (sym e) (has_suffix_self suffix)
    | inr (before, e) ↦
        subst (λ t. has_suffix t suffix ≡ true) (sym e) (has_suffix-append before suffix)
  ]),
)

-- One of the suffixes is the name, or the name ends in it behind a dot.
abbrev pub IsUnder : List Bytes → Bytes → Type 0
IsUnder [] name = ⊥
IsUnder (suffix ∷ suffixes) name = IsBehindDot name suffix ⊎ IsUnder suffixes name

pub is_removed-IsUnder :
    (suffixes : List Bytes) (name : Bytes) → is_removed suffixes name ≡ true → IsUnder suffixes name
unfolding is_removed
is_removed-IsUnder [] name h = absurd (false≢true h)
is_removed-IsUnder (suffix ∷ suffixes) name h = elim (Bool-cases (has_suffix name suffix)) [
  | inl ends ↦ inl ((has_suffix-IsBehindDot name suffix).0 ends)
  | inr other ↦ inr (is_removed-IsUnder suffixes name (rw other at h))
]

pub IsUnder-is_removed :
    (suffixes : List Bytes) (name : Bytes) → IsUnder suffixes name → is_removed suffixes name ≡ true
unfolding is_removed
IsUnder-is_removed [] name u = absurd u
IsUnder-is_removed (suffix ∷ suffixes) name (inl ends) =
    rw ((has_suffix-IsBehindDot name suffix).1 ends) refl
IsUnder-is_removed (suffix ∷ suffixes) name (inr u) = elim (Bool-cases (has_suffix name suffix)) [
  | inl ends ↦ rw ends refl
  | inr other ↦ rw other (IsUnder-is_removed suffixes name u)
]

-- A name passes the test of a suffix exactly if its labels end in the labels of the suffix.
pub has_suffix_labels :
    (l k : Bytes) (ls ks : List Bytes)
    → All HasNoDot (l ∷ ls)
    → All HasNoDot (k ∷ ks)
    → (has_suffix (dotted (l ∷ ls)) (dotted (k ∷ ks)) ≡ true)
      ↔ ((front : List Bytes) × (l ∷ ls ≡ front ++ k ∷ ks))
has_suffix_labels l k ls ks v w =
    let labels : l ∷ ls ≡ split_dots (dotted (l ∷ ls)) = sym (split_dots-dotted l ls v) in
    (
      (λ h. elim (has_suffix-split (dotted (l ∷ ls)) (dotted (k ∷ ks)) h) [
        | inl e ↦ ([], labels ∙ ap split_dots e ∙ split_dots-dotted k ks w)
        | inr (before, e) ↦ (
          split_dots before,
          labels
              ∙ ap split_dots e
              ∙ split_dots-append before (dotted (k ∷ ks))
              ∙ ap (λ t. split_dots before ++ t) (split_dots-dotted k ks w),
        )
      ]),
      (λ (before, e).
          subst (λ name. has_suffix (dotted name) (dotted (k ∷ ks)) ≡ true) (sym e)
            (has_suffix-dotted before k ks)),
    )
