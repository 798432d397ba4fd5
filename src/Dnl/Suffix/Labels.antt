-- ===== src/Dnl/Suffix/Labels.antt =====
-- The suffixes that `get_suffix` of src/dnl.c finds, against the labels of the name.
use chinadns_ng.Prelude.{
  ℕ, zero, suc, ◌+◌, ◌≤◌, ◌<◌, ◌≡◌, ◌≢◌, refl, sym, ap, ◌∙◌, true, false, some, none, List, [], ◌∷◌,
  ◌++◌, arith, ltb, if◌then◌else◌, length, drop, All, inl, inr, Bool-cases, append-nil,
  append_assoc, length-append, ltb→lt, ==_ne,
}
use chinadns_ng.Prelude.Words.{Bytes, byte-middle, drop-suc, byte}
use chinadns_ng.Dns.Name.Labels.{HasNoDot, dot_labels, dotted}
use chinadns_ng.Dnl.{Levels}
use chinadns_ng.Dnl.Suffix.{memrchr, has_interest, whole_name, suffix_loop, get_suffix}

-- The suffixes of a name whose number of labels is in use, shortest first.
unfoldable pub listed_suffixes : Levels → List Bytes → List Bytes
listed_suffixes levels [] = []
listed_suffixes levels (l ∷ ls) =
    let rest = listed_suffixes levels ls in
    if has_interest levels (length (l ∷ ls)) then rest ++ dotted (l ∷ ls) ∷ [] else rest

-- No level above the greatest one is in use.
abbrev pub AreBounded : Levels → Type 0
AreBounded levels = (level : ℕ) → levels.level_max < level → has_interest levels level ≡ false

-- The labels in front of the ones done, the last one first, in their dotted form.
abbrev front : List Bytes → Bytes
front [] = []
front (l ∷ []) = l
front (l ∷ m ∷ r) = front (m ∷ r) ++ b'.' ∷ l

unfoldable longer_suffixes : Levels → List Bytes → List Bytes → List Bytes
longer_suffixes levels [] done = []
longer_suffixes levels (l ∷ r) done =
    let rest = longer_suffixes levels r (l ∷ done) in
    if has_interest levels (length (l ∷ done)) then dotted (l ∷ done) ∷ rest else rest

abbrev reverse_onto : List Bytes → List Bytes → List Bytes
reverse_onto [] done = done
reverse_onto (l ∷ r) done = reverse_onto r (l ∷ done)

listed_suffixes-reverse_onto :
    (levels : Levels) (r done : List Bytes)
    → listed_suffixes levels (reverse_onto r done)
      ≡ listed_suffixes levels done ++ longer_suffixes levels r done
unfolding listed_suffixes longer_suffixes
listed_suffixes-reverse_onto levels [] done = simp append-nil
listed_suffixes-reverse_onto levels (l ∷ r) done =
    listed_suffixes-reverse_onto levels r (l ∷ done)
    ∙ (elim (Bool-cases (has_interest levels (length (l ∷ done)))) [
      | inl asked ↦ rw asked (simp append_assoc)
      | inr other ↦ rw other refl
    ])

front-reverse_onto :
    (m : Bytes) (r ls : List Bytes)
    → front (m ∷ r) ++ dot_labels ls ≡ front (reverse_onto ls (m ∷ r))
front-reverse_onto m r [] = simp append-nil
front-reverse_onto m r (l ∷ ls) =
    sym (append_assoc (front (m ∷ r)) (b'.' ∷ l) (dot_labels ls)) ∙ front-reverse_onto l (m ∷ r) ls

length-snoc : (before : Bytes) (c : ℕ) → length (before ++ c ∷ []) ≡ suc (length before)
length-snoc before c = omega (arith, length-append before (c ∷ []))

memrchr-pass :
    (name before tail : Bytes) (c : ℕ)
    → name ≡ before ++ c ∷ tail
    → c ≢ b'.'
    → memrchr name b'.' (suc (length before)) ≡ memrchr name b'.' (length before)
unfolding memrchr
memrchr-pass name before tail c at ne =
    rw (ap (λ n. byte n (length before)) at, byte-middle before tail c, ==_ne c b'.' ne) refl

memrchr-hit :
    (name before tail : Bytes)
    → name ≡ before ++ b'.' ∷ tail
    → memrchr name b'.' (suc (length before)) ≡ some (length before)
unfolding memrchr
memrchr-hit name before tail at =
    rw (ap (λ n. byte n (length before)) at, byte-middle before tail b'.') refl

-- The bytes of a label are passed.
memrchr-skip :
    (name before l tail : Bytes)
    → name ≡ before ++ (l ++ tail)
    → HasNoDot l
    → memrchr name b'.' (length before + length l) ≡ memrchr name b'.' (length before)
memrchr-skip name before [] tail at v = ap (memrchr name b'.') (omega arith)
memrchr-skip name before (c ∷ l) tail at v =
    let next : name ≡ (before ++ c ∷ []) ++ (l ++ tail) =
      at ∙ sym (append_assoc before (c ∷ []) (l ++ tail)) in
    let count : length before + length (c ∷ l) ≡ length (before ++ c ∷ []) + length l =
      omega (arith, length-snoc before c) in
    ap (memrchr name b'.') count
    ∙ memrchr-skip name (before ++ c ∷ []) l tail next v.1
    ∙ ap (memrchr name b'.') (length-snoc before c)
    ∙ memrchr-pass name before (l ++ tail) c at v.0

memrchr-none :
    (name l tail : Bytes) → name ≡ l ++ tail → HasNoDot l → memrchr name b'.' (length l) ≡ none
unfolding memrchr
memrchr-none name l tail at v =
    ap (memrchr name b'.') (omega arith) ∙ memrchr-skip name [] l tail at v

-- Past the greatest level, no longer suffix is listed.
longer_suffixes-none :
    (levels : Levels) (r done : List Bytes)
    → AreBounded levels
    → levels.level_max < length done + 1
    → longer_suffixes levels r done ≡ []
unfolding longer_suffixes
longer_suffixes-none levels [] done bounded h = refl
longer_suffixes-none levels (l ∷ r) done bounded h =
    rw (bounded (length (l ∷ done)) (omega (arith, h)))
      (longer_suffixes-none levels r (l ∷ done) bounded (omega (arith, h)))

suffix_loop-none :
    (fuel : ℕ) (levels : Levels) (name : Bytes) (dot level : ℕ)
    → memrchr name b'.' dot ≡ none
    → suffix_loop (suc fuel) levels name dot level ≡ whole_name levels name level
unfolding suffix_loop
suffix_loop-none fuel levels name dot level h = elim (Bool-cases (ltb levels.level_max level)) [
  | inl past ↦ rw (suffix_loop, past) refl
  | inr within ↦ rw (suffix_loop, within, h) refl
]

suffix_loop-some :
    (fuel : ℕ) (levels : Levels) (name : Bytes) (dot level i : ℕ)
    → ltb levels.level_max level ≡ false
    → memrchr name b'.' dot ≡ some i
    → let rest = suffix_loop fuel levels name i (level + 1) in
      suffix_loop (suc fuel) levels name dot level
      ≡ (if has_interest levels level then drop (suc i) name ∷ rest else rest)
unfolding suffix_loop
suffix_loop-some fuel levels name dot level i within h = rw (suffix_loop, within, h) refl

suffix_loop-past :
    (fuel : ℕ) (levels : Levels) (name : Bytes) (dot level : ℕ)
    → AreBounded levels
    → ltb levels.level_max level ≡ true
    → suffix_loop (suc fuel) levels name dot level ≡ []
unfolding suffix_loop
suffix_loop-past fuel levels name dot level bounded past =
    rw (suffix_loop, past, bounded level (ltb→lt levels.level_max level past)) refl

-- The loop with the labels of `done` behind it.
suffix_loop-longer :
    (fuel level : ℕ) (levels : Levels) (name l : Bytes) (r done : List Bytes)
    → AreBounded levels
    → level ≡ length (l ∷ done)
    → levels.level_max + 2 ≤ fuel + level
    → All HasNoDot (l ∷ r)
    → name ≡ front (l ∷ r) ++ dot_labels done
    → suffix_loop fuel levels name (length (front (l ∷ r))) level
      ≡ longer_suffixes levels (l ∷ r) done
unfolding suffix_loop longer_suffixes
suffix_loop-longer zero level levels name l r done bounded count enough v at =
    sym (longer_suffixes-none levels (l ∷ r) done bounded (omega (arith, count, enough)))
suffix_loop-longer (suc fuel) level levels name l [] done bounded count enough v at =
    suffix_loop-none fuel levels name (length l) level
      (memrchr-none name l (dot_labels done) at v.0)
    ∙ ap (λ n. if has_interest levels level then n ∷ [] else []) at
    ∙ ap (λ n. if has_interest levels n then dotted (l ∷ done) ∷ [] else []) count
suffix_loop-longer (suc fuel) level levels name l (m ∷ r) done bounded count enough v at =
    let before : Bytes = front (m ∷ r) in
    let split : name ≡ before ++ (b'.' ∷ (l ++ dot_labels done)) =
      at ∙ append_assoc before (b'.' ∷ l) (dot_labels done) in
    let split_label : name ≡ (before ++ b'.' ∷ []) ++ (l ++ dot_labels done) =
      split ∙ sym (append_assoc before (b'.' ∷ []) (l ++ dot_labels done)) in
    let found : memrchr name b'.' (length (before ++ b'.' ∷ l)) ≡ some (length before) =
      ap (memrchr name b'.')
        (omega (arith, length-append before (b'.' ∷ l), length-snoc before b'.'))
      ∙ memrchr-skip name (before ++ b'.' ∷ []) l (dot_labels done) split_label v.0
      ∙ ap (memrchr name b'.') (length-snoc before b'.')
      ∙ memrchr-hit name before (l ++ dot_labels done) split in
    elim (Bool-cases (ltb levels.level_max level)) [
      | inl past ↦
          suffix_loop-past fuel levels name (length (before ++ b'.' ∷ l)) level bounded past
          ∙ sym (
              longer_suffixes-none levels (l ∷ m ∷ r) done bounded
                (omega (arith, count, ltb→lt levels.level_max level past)))
      | inr within ↦
          suffix_loop-some fuel levels name (length (before ++ b'.' ∷ l)) level (length before)
            within found
          ∙ ap
              (λ rest.
                if has_interest levels level then drop (suc (length before)) name ∷ rest else rest)
              (suffix_loop-longer fuel (level + 1) levels name m r (l ∷ done) bounded
                (omega (arith, count)) (omega (arith, enough)) v.1 split)
          ∙ ap
              (λ n.
                let rest = longer_suffixes levels (m ∷ r) (l ∷ done) in
                if has_interest levels level then n ∷ rest else rest)
              (ap (drop (suc (length before))) split ∙ drop-suc before (l ++ dot_labels done) b'.')
          ∙ ap
              (λ n.
                let rest = longer_suffixes levels (m ∷ r) (l ∷ done) in
                if has_interest levels n then dotted (l ∷ done) ∷ rest else rest)
              count
    ]

reverse_onto-reverse_onto :
    (ls r done : List Bytes) → reverse_onto (reverse_onto ls r) done ≡ reverse_onto r (ls ++ done)
reverse_onto-reverse_onto [] r done = refl
reverse_onto-reverse_onto (l ∷ ls) r done = reverse_onto-reverse_onto ls (l ∷ r) done

All-reverse_onto :
    (ls r : List Bytes) → All HasNoDot ls → All HasNoDot r → All HasNoDot (reverse_onto ls r)
All-reverse_onto [] r v w = w
All-reverse_onto (l ∷ ls) r v w = All-reverse_onto ls (l ∷ r) v.1 (v.0, w)

length-reverse_onto : (ls r : List Bytes) → 1 ≤ length r → 1 ≤ length (reverse_onto ls r)
length-reverse_onto [] r h = h
length-reverse_onto (l ∷ ls) r h = length-reverse_onto ls (l ∷ r) (omega arith)

-- The whole loop, on the labels from the last one.
get_suffix-front :
    (levels : Levels) (name : Bytes) (r : List Bytes)
    → AreBounded levels
    → All HasNoDot r
    → 1 ≤ length r
    → name ≡ front r
    → get_suffix levels name ≡ longer_suffixes levels r []
unfolding get_suffix
get_suffix-front levels name [] bounded v some_label at = absurd (omega arith)
get_suffix-front levels name (l ∷ r) bounded v some_label at =
    ap (λ n. suffix_loop (levels.level_max + 1) levels name n 1) (ap length at)
    ∙ suffix_loop-longer (levels.level_max + 1) 1 levels name l r [] bounded refl (omega arith) v
        (at ∙ simp append-nil)

-- On a name of labels without dots, the suffixes are its own whose number of labels is in use,
-- from the shortest, where no level above the greatest one is in use.
pub get_suffix-listed_suffixes :
    (levels : Levels) (l : Bytes) (ls : List Bytes)
    → AreBounded levels
    → All HasNoDot (l ∷ ls)
    → get_suffix levels (dotted (l ∷ ls)) ≡ listed_suffixes levels (l ∷ ls)
unfolding listed_suffixes
get_suffix-listed_suffixes levels l ls bounded v =
    let r : List Bytes = reverse_onto ls (l ∷ []) in
    get_suffix-front levels (dotted (l ∷ ls)) r bounded (All-reverse_onto ls (l ∷ []) v.1 (v.0, tt))
      (length-reverse_onto ls (l ∷ []) (omega arith)) (front-reverse_onto l [] ls)
    ∙ sym (listed_suffixes-reverse_onto levels r [])
    ∙ ap (listed_suffixes levels)
        (reverse_onto-reverse_onto ls (l ∷ []) [] ∙ ap (λ t. l ∷ t) (append-nil ls))
