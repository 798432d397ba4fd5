-- ===== src/Tests/Caches.antt =====
-- Cache files of tool/dns_cache_mgr.c.
use chinadns_ng.Prelude.{
  All, ℕ, ◌≡◌, ◌↔◌, refl, true, false, some, List, [], ◌∷◌, ◌++◌, arith, map, equal, inr, replicate,
}
use chinadns_ng.Prelude.Words.{Bytes, c_string}
use chinadns_ng.Prelude.Int.{pos, negsuc}
use chinadns_ng.Dns.Header.{dns_get_qtype}
use chinadns_ng.Dns.Name.{decode_loop, decode_name, dns_wire_to_ascii}
use chinadns_ng.Dns.Name.Labels.{dotted}
use chinadns_ng.CacheMgr.{
  update_time, ttl, msg_len, qnamelen, read_entry, next, has_suffix, is_removed, delete_loop,
  list_loop, exited, listed, removed, list, delete, parse_args, initial_options, System, main,
}
use chinadns_ng.CacheMgr.Suffix.{has_suffix_labels}
use chinadns_ng.CacheMgr.Entries.{Entry, IsEntry, file_of}
use chinadns_ng.CacheMgr.Delete.{AreParted, delete-AreParted, IsTruncated, delete-truncated}
use chinadns_ng.CacheMgr.Listing.{entry_line, IsTimely, list-entry_line}
use chinadns_ng.CacheMgr.Arguments.{AreOptions, parse_args-AreOptions}

program : Unit {0}
unfolding update_time ttl msg_len qnamelen read_entry next has_suffix is_removed delete_loop
    list_loop list delete parse_args main c_string decode_loop decode_name dns_wire_to_ascii equal
    dns_get_qtype
program = tt

-- An entry of the time 100 and the TTL 60, for a name of one or two labels of one letter.
abbrev header : ℕ → ℕ → Bytes
header size name_size =
    (100 ∷ replicate 11 0) ++ (60 ∷ replicate 7 0) ++ size ∷ 0 ∷ name_size ∷ 0 ∷ []

abbrev zeros : Bytes
zeros = replicate 12 0

abbrev entry_ab : Entry
entry_ab = record {
  header = header 21 5;
  dns_header = zeros;
  labels = (b'a' ∷ []) ∷ (b'b' ∷ []) ∷ [];
  rest = 0 ∷ 1 ∷ 0 ∷ 1 ∷ [];
}

abbrev entry_c : Entry
entry_c = record {
  header = header 19 3;
  dns_header = zeros;
  labels = (b'c' ∷ []) ∷ [];
  rest = 0 ∷ 28 ∷ 0 ∷ 1 ∷ [];
}

entry_ab-IsEntry : IsEntry entry_ab
unfolding msg_len qnamelen
entry_ab-IsEntry = record {
  header_len = refl;
  dns_header_len = refl;
  size = refl;
  name_size = refl;
  short = omega arith;
  valid = ((omega arith, omega arith), ((omega arith, omega arith), tt));
  has_type = omega arith;
}

entry_c-IsEntry : IsEntry entry_c
unfolding msg_len qnamelen
entry_c-IsEntry = record {
  header_len = refl;
  dns_header_len = refl;
  size = refl;
  name_size = refl;
  short = omega arith;
  valid = ((omega arith, omega arith), tt);
  has_type = omega arith;
}

abbrev two_entries : List Entry
two_entries = entry_ab ∷ entry_c ∷ []

abbrev suffix_b : List Bytes
suffix_b = (b'b' ∷ []) ∷ []

abbrev dash_r : Bytes
dash_r = b'-' ∷ b'r' ∷ []

abbrev linux : System
linux = record {
  fopen = λ path. some (file_of two_entries (1 ∷ 2 ∷ []));
  time = 130;
  memory = [];
  has_temp = true;
  renames = true;
}

lists_two :
    main linux []
    ≡ listed (
        record { name = b'a' ∷ b'.' ∷ b'b' ∷ []; qtype = 1; ttl_left = pos 30; size = 21 }
        ∷ record { name = b'c' ∷ []; qtype = 28; ttl_left = pos 30; size = 19 }
        ∷ [])
unfolding program
lists_two = refl

expired_is_negative : (entry_line 170 entry_c).ttl_left ≡ negsuc 9
unfolding program
expired_is_negative = refl

removes_one :
    main linux (dash_r ∷ (b'b' ∷ []) ∷ [])
    ≡ removed ((b'a' ∷ b'.' ∷ b'b' ∷ []) ∷ []) (file_of (entry_c ∷ []) [])
unfolding program
removes_one = refl

missing_value : main linux (dash_r ∷ []) ≡ exited
unfolding program
missing_value = refl

-- "ab" does not end in the label "b".
no_part_of_label : has_suffix (b'a' ∷ b'b' ∷ []) (b'b' ∷ []) ≡ false
unfolding program
no_part_of_label = refl

delete-AreParted_example :
    (names : List Bytes) × (kept : List Entry) × AreParted suffix_b two_entries names kept
    × (delete true true [] suffix_b (file_of two_entries (1 ∷ 2 ∷ []))
        ≡ removed names (file_of kept []))
delete-AreParted_example =
    delete-AreParted suffix_b two_entries (1 ∷ 2 ∷ []) [] (entry_ab-IsEntry, (entry_c-IsEntry, tt))
      (omega arith)

-- The second entry lacks its last byte.
abbrev cut : Bytes
cut = header 19 3 ++ replicate 18 0

cut-IsTruncated : IsTruncated cut
unfolding msg_len
cut-IsTruncated = (omega arith, inr (omega arith))

delete-truncated_example : delete true true [] suffix_b (file_of (entry_ab ∷ []) cut) ≡ exited
delete-truncated_example =
    delete-truncated true true suffix_b (entry_ab ∷ []) cut [] (entry_ab-IsEntry, tt)
      cut-IsTruncated

timely : All (IsTimely 130) two_entries
unfolding program
timely = ((omega arith, omega arith, omega arith), ((omega arith, omega arith, omega arith), tt))

list-entry_line_example :
    list 130 [] (file_of two_entries (1 ∷ 2 ∷ [])) ≡ listed (map (entry_line 130) two_entries)
list-entry_line_example =
    list-entry_line 130 two_entries (1 ∷ 2 ∷ []) [] (entry_ab-IsEntry, (entry_c-IsEntry, tt)) timely
      (omega arith)

has_suffix_labels_example :
    (has_suffix (dotted (entry_ab.labels)) (dotted ((b'b' ∷ []) ∷ [])) ≡ true)
    ↔ ((front : List Bytes) × (entry_ab.labels ≡ front ++ (b'b' ∷ []) ∷ []))
has_suffix_labels_example =
    has_suffix_labels (b'a' ∷ []) (b'b' ∷ []) ((b'b' ∷ []) ∷ []) []
      ((λ e. omega (arith, e), tt), ((λ e. omega (arith, e), tt), tt))
      ((λ e. omega (arith, e), tt), tt)

parse_args-AreOptions_example :
    (parse_args (dash_r ∷ (b'b' ∷ []) ∷ []) initial_options
      ≡ some (record initial_options { suffixes = suffix_b }))
    ↔ AreOptions
        (dash_r ∷ (b'b' ∷ []) ∷ [])
        initial_options
        (record initial_options { suffixes = suffix_b })
parse_args-AreOptions_example =
    parse_args-AreOptions (dash_r ∷ (b'b' ∷ []) ∷ []) initial_options
      (record initial_options { suffixes = suffix_b }) (omega arith)
