-- ===== src/CacheMgr/Delete.antt =====
-- What `delete` of tool/dns_cache_mgr.c makes of a file of entries.
use mathlib.Core.Bool.{false≢true}
use mathlib.Core.Path.{ap₂}
use chinadns_ng.Prelude.{
  ℕ, zero, suc, ◌+◌, ◌≤◌, ◌<◌, ◌≡◌, ◌⊎◌, refl, sym, ap, ◌∙◌, Bool, true, false, ◌||◌, some, none,
  List, [], ◌∷◌, ◌++◌, arith, ltb, ◌==◌, if◌then◌else◌, length, take, drop, All, append-nil,
  append_assoc, length-append, take-append, Bool-cases, inl, inr, le→ltb,
}
use chinadns_ng.Prelude.Words.{Bytes}
use chinadns_ng.CacheMgr.{
  entry_header_size, msg_len, failed, read_entry, next, is_removed, delete_loop, exited, removed,
  delete,
}
use chinadns_ng.CacheMgr.Suffix.{IsUnder, is_removed-IsUnder, IsUnder-is_removed}
use chinadns_ng.CacheMgr.Entries.{Entry, IsEntry, message, name_of, file_of, next-entry, next-ended}

-- The entries of a file, parted: the names of those under a suffix, and the entries of the others,
-- both in the order of the file.
pub data AreParted (suffixes : List Bytes) : List Entry → List Bytes → List Entry → Type 0 where
  parted_end : AreParted suffixes [] [] []
  is_gone :
      (e : Entry) {es kept : List Entry} {names : List Bytes}
      → IsUnder suffixes (name_of e)
      → AreParted suffixes es names kept
      → AreParted suffixes (e ∷ es) (name_of e ∷ names) kept
  is_kept :
      (e : Entry) {es kept : List Entry} {names : List Bytes}
      → ¬ IsUnder suffixes (name_of e)
      → AreParted suffixes es names kept
      → AreParted suffixes (e ∷ es) names (e ∷ kept)

-- What the loop keeps, and the names that it prints.
unfoldable kept_entries : List Bytes → List Entry → List Entry
kept_entries suffixes [] = []
kept_entries suffixes (e ∷ es) =
    let rest = kept_entries suffixes es in
    if is_removed suffixes (name_of e) then rest else e ∷ rest

unfoldable removed_names : List Bytes → List Entry → List Bytes
removed_names suffixes [] = []
removed_names suffixes (e ∷ es) =
    let rest = removed_names suffixes es in
    if is_removed suffixes (name_of e) then name_of e ∷ rest else rest

module _ (suffixes : List Bytes) where
  delete_loop-entry :
      (fuel : ℕ) (e : Entry) (file msg : Bytes) (printed : List Bytes) (written : Bytes)
      → IsEntry e
      → let msg' = message e ++ drop (length (message e)) msg in
        delete_loop (suc fuel) (e.header ++ (message e ++ file)) msg suffixes printed written ≡ (
          if is_removed suffixes (name_of e)
          then delete_loop fuel file msg' suffixes (printed ++ name_of e ∷ []) written
          else delete_loop fuel file msg' suffixes printed (written ++ e.header ++ message e))
  unfolding delete_loop
  delete_loop-entry fuel e file msg printed written w =
      rw (delete_loop, next-entry e file msg w)
        (ap
          (λ m.
            if is_removed suffixes (name_of e)
            then delete_loop fuel file (message e ++ drop (length (message e)) msg) suffixes
                (printed ++ name_of e ∷ []) written
            else delete_loop fuel file (message e ++ drop (length (message e)) msg) suffixes printed
                (written ++ e.header ++ m))
          (take-append (message e) (drop (length (message e)) msg) (msg_len e.header) (sym w.size)))

  delete_loop-file_of :
      (fuel : ℕ) (es : List Entry) (tail msg : Bytes) (printed : List Bytes) (written : Bytes)
      → All IsEntry es
      → length tail < entry_header_size
      → length es < fuel
      → delete_loop fuel (file_of es tail) msg suffixes printed written
        ≡ some
            (printed ++ removed_names suffixes es, written ++ file_of (kept_entries suffixes es) [])
  unfolding delete_loop kept_entries removed_names
  delete_loop-file_of zero es tail msg printed written v short enough = absurd (omega arith)
  delete_loop-file_of (suc fuel) [] tail msg printed written v short enough =
      rw (delete_loop, next-ended tail msg short)
        (ap₂ (λ a b. some (a, b)) (sym (append-nil printed)) (sym (append-nil written)))
  delete_loop-file_of (suc fuel) (e ∷ es) tail msg printed written v short enough =
      let msg' : Bytes = message e ++ drop (length (message e)) msg in
      let kept : Bytes = file_of (kept_entries suffixes es) [] in
      let names : List Bytes = removed_names suffixes es in
      delete_loop-entry fuel e (file_of es tail) msg printed written v.0
      ∙ (elim (Bool-cases (is_removed suffixes (name_of e))) [
        | inl gone ↦ rw gone (
            delete_loop-file_of fuel es tail msg' (printed ++ name_of e ∷ []) written v.1 short
              (omega arith)
            ∙ ap (λ ns. some (ns, written ++ kept)) (append_assoc printed (name_of e ∷ []) names))
        | inr stays ↦ rw stays (
            delete_loop-file_of fuel es tail msg' printed (written ++ e.header ++ message e) v.1
              short (omega arith)
            ∙ ap (λ bytes. some (printed ++ names, bytes))
                (append_assoc (written ++ e.header) (message e) kept
                  ∙ append_assoc written e.header (message e ++ kept)))
      ])

-- A header with no message behind it, or one longer than what is left.
abbrev pub IsTruncated : Bytes → Type 0
IsTruncated tail =
    (entry_header_size ≤ length tail)
    × ((msg_len (take entry_header_size tail) ≡ 0)
        ⊎ (length (drop entry_header_size tail) < msg_len (take entry_header_size tail)))

is_bad : (n left : ℕ) → (n ≡ 0) ⊎ (left < n) → ((n == 0) || ltb left n) ≡ true
is_bad n left bad = ground arith

next-failed : (tail msg : Bytes) → IsTruncated tail → next tail msg ≡ failed
unfolding next read_entry
next-failed tail msg (long, bad) =
    rw
      (
        le→ltb (length tail) entry_header_size long,
        is_bad (msg_len (take entry_header_size tail)) (length (drop entry_header_size tail)) bad,
      )
      refl

delete_loop-truncated :
    (suffixes : List Bytes) (fuel : ℕ) (es : List Entry) (tail msg : Bytes) (printed : List Bytes)
    (written : Bytes)
    → All IsEntry es
    → IsTruncated tail
    → delete_loop fuel (file_of es tail) msg suffixes printed written ≡ none
unfolding delete_loop
delete_loop-truncated suffixes zero es tail msg printed written v bad = refl
delete_loop-truncated suffixes (suc fuel) [] tail msg printed written v bad =
    rw (delete_loop, next-failed tail msg bad) refl
delete_loop-truncated suffixes (suc fuel) (e ∷ es) tail msg printed written v bad =
    delete_loop-entry suffixes fuel e (file_of es tail) msg printed written v.0
    ∙ (elim (Bool-cases (is_removed suffixes (name_of e))) [
      | inl gone ↦ rw gone (delete_loop-truncated suffixes fuel es tail _ _ _ v.1 bad)
      | inr stays ↦ rw stays (delete_loop-truncated suffixes fuel es tail _ _ _ v.1 bad)
    ])

-- An entry has a header at least, so its file is longer than the number of its entries.
pub length-file_of :
    (es : List Entry) (tail : Bytes) → All IsEntry es → length es ≤ length (file_of es tail)
length-file_of [] tail v = omega arith
length-file_of (e ∷ es) tail v =
    let w : IsEntry e = v.0 in
    omega (
      arith,
      w.header_len,
      length-append e.header (message e ++ file_of es tail),
      length-append (message e) (file_of es tail),
      length-file_of es tail v.1,
    )

kept_entries-AreParted :
    (suffixes : List Bytes) (es : List Entry)
    → AreParted suffixes es (removed_names suffixes es) (kept_entries suffixes es)
unfolding kept_entries removed_names
kept_entries-AreParted suffixes [] = parted_end
kept_entries-AreParted suffixes (e ∷ es) = elim (Bool-cases (is_removed suffixes (name_of e))) [
  | inl gone ↦ rw gone (
      is_gone e (is_removed-IsUnder suffixes (name_of e) gone) (kept_entries-AreParted suffixes es))
  | inr stays ↦ rw stays (
      is_kept e (λ u. false≢true (sym stays ∙ IsUnder-is_removed suffixes (name_of e) u))
        (kept_entries-AreParted suffixes es))
]

-- On a file of entries, with less than a header behind them, a removal that can make and rename its
-- temporary file prints the names that are one of the suffixes or end in one behind a dot, in
-- order, and leaves the other entries as they were, in order, and nothing else.
pub delete-AreParted :
    (suffixes : List Bytes) (es : List Entry) (tail msg : Bytes)
    → All IsEntry es
    → length tail < entry_header_size
    → (names : List Bytes) × (kept : List Entry) × AreParted suffixes es names kept
      × (delete true true msg suffixes (file_of es tail) ≡ removed names (file_of kept []))
unfolding delete
delete-AreParted suffixes es tail msg v short = (
  removed_names suffixes es,
  kept_entries suffixes es,
  kept_entries-AreParted suffixes es,
  rw
      (
        delete,
        delete_loop-file_of suffixes (length (file_of es tail) + 1) es tail msg [] [] v short
            (omega (arith, length-file_of es tail v)),
      )
      refl,
)

-- A file that ends, behind whole entries, in a whole header whose message has no bytes or is cut short
-- is left as it is. (Fewer bytes than a header are no such entry: they end the file.)
pub delete-truncated :
    (has_temp renames : Bool) (suffixes : List Bytes) (es : List Entry) (tail msg : Bytes)
    → All IsEntry es
    → IsTruncated tail
    → delete has_temp renames msg suffixes (file_of es tail) ≡ exited
unfolding delete
delete-truncated false renames suffixes es tail msg v bad = refl
delete-truncated true renames suffixes es tail msg v bad =
    rw
      (
        delete,
        delete_loop-truncated suffixes (length (file_of es tail) + 1) es tail msg [] [] v bad,
      )
      refl
