-- ===== src/Tests/Loads.antt =====
-- Domain lists of src/dnl.c from the files to the answers.
use mathlib.Core.Option.{some-injective}
use chinadns_ng.Prelude.{
  ℕ, zero, suc, ◌+◌, ◌<◌, ◌^◌, false, ◌||◌, ◌==◌, if◌then◌else◌, equal, none, some, List, [], ◌∷◌,
  ◌≡◌, ◌≤◌, refl, arith, All, length, subst, Bool-cases, inl, inr, none_ne, true, map,
}
use chinadns_ng.Prelude.Words.{Bytes, byte, c_string}
use chinadns_ng.Tag.{tag_max}
use chinadns_ng.Dns.Name.Labels.{dotted}
use chinadns_ng.Dnl.{check_loop, note_level, is_refused, check_name}
use chinadns_ng.Dnl.Table.{
  Dnl, calc_lcap_loop, calc_lcap, is_in_list, add_at, add_to_dnl, exists_in_list, exists_in_dnl,
  add_names, add_list, add_name,
}
use chinadns_ng.Dnl.Suffix.{memrchr, suffix_loop, get_suffix, find_tag, dnl_get_tag}
use chinadns_ng.Dnl.Init.{dnl_set_notnull, count_names, user_tags, ordered_tags, add_tags, dnl_init}
use chinadns_ng.Dnl.Init.Priority.{first_tag}
use chinadns_ng.Dnl.Memory.{
  Memory, Pages, align_to, alloc, write_name, write_names, name_at, names_from,
}
use chinadns_ng.Dnl.Memory.Walk.{IsWithin, name_of, total_size, write_names-names_from}
use chinadns_ng.Dnl.Load.{
  Files, Input, initial_input, load_words, end_token, read_tokens, dnl_load_list_gz, has_gz_suffix,
  load_file, load_list, load_tags,
}
use chinadns_ng.Dnl.Load.Listed.{AreScanned}
use chinadns_ng.Dnl.Load.Tagged.{longest_tag, or_default, dnl_get_tag-longest_tag}

program : Unit {0}
unfolding align_to alloc write_name write_names name_at names_from check_loop note_level is_refused
    check_name calc_lcap_loop calc_lcap is_in_list add_at add_to_dnl exists_in_list exists_in_dnl
    memrchr suffix_loop get_suffix find_tag dnl_get_tag equal add_names add_list add_name
    dnl_set_notnull count_names user_tags ordered_tags add_tags dnl_init first_tag c_string
    load_words end_token read_tokens dnl_load_list_gz has_gz_suffix load_file load_list load_tags
    longest_tag
program = tt

abbrev text_file : Bytes
text_file = b'f' ∷ []

abbrev text_words : List Bytes
text_words = (b'a' ∷ b'.' ∷ b'b' ∷ []) ∷ (b'#' ∷ b'b' ∷ []) ∷ []

abbrev gz_file : Bytes
gz_file = b'z' ∷ b'.' ∷ b'g' ∷ b'z' ∷ []

abbrev two_files : Files
two_files = record {
  scan = λ fname. if equal fname text_file then some text_words else none;
  gunzip =
      λ fname. if equal fname gz_file then some (b'b' ∷ 10 ∷ b' ' ∷ b'x' ∷ [], false) else none;
  is_whitespace = λ c. (c == 10) || (c == b' ');
}

-- The text file has names for the tag 0; the gzip file, one that is missing and stdin for the tag 1.
abbrev filenames : ℕ → List Bytes
filenames zero = text_file ∷ []
filenames (suc zero) = gz_file ∷ (b'm' ∷ []) ∷ (b'-' ∷ []) ∷ (b'-' ∷ []) ∷ []
filenames (suc (suc n)) = []

abbrev stdin_words : List Bytes
stdin_words = (b'y' ∷ []) ∷ []

abbrev read_lists : (ℕ → List Bytes) × Input
read_lists = load_tags two_files filenames (tag_max + 1) (initial_input stdin_words)

abbrev first_byte : Bytes → ℕ
first_byte text = byte text 0

abbrev lists : Dnl
lists = (add_tags first_byte read_lists.0 (ordered_tags false) 0 (dnl_set_notnull (calc_lcap 4))).1

reads_text_file : read_lists.0 0 ≡ (b'a' ∷ b'.' ∷ b'b' ∷ []) ∷ []
unfolding program
reads_text_file = refl

reads_gz_and_stdin : read_lists.0 1 ≡ (b'b' ∷ []) ∷ (b'x' ∷ []) ∷ (b'y' ∷ []) ∷ []
unfolding program
reads_gz_and_stdin = refl

notes_two_levels : read_lists.1.levels.level_interest ≡ 3
unfolding program
notes_two_levels = refl

lists_are_read : dnl_init first_byte read_lists.0 false ≡ some lists
unfolding program
lists_are_read = refl

two_files-AreScanned : AreScanned two_files
two_files-AreScanned fname words h = elim (Bool-cases (equal fname text_file)) [
  | inl here ↦
      subst (All (λ word. length word ≤ 253)) (some-injective text_words words (rw here at h))
        (omega arith, (omega arith, tt))
  | inr missing ↦ absurd (none_ne (rw missing at h))
]

abbrev query : List Bytes
query = (b'a' ∷ []) ∷ (b'b' ∷ []) ∷ []

longest_suffix_wins :
    dnl_get_tag first_byte (some lists) read_lists.1.levels (dotted ((b'c' ∷ []) ∷ query)) 7
    ≡ some 0
unfolding program
longest_suffix_wins = refl

unlisted_gets_default :
    dnl_get_tag first_byte (some lists) read_lists.1.levels (b'q' ∷ b'.' ∷ b'r' ∷ []) 7 ≡ some 7
unfolding program
unlisted_gets_default = refl

dnl_get_tag-longest_tag_example :
    dnl_get_tag first_byte (some lists) read_lists.1.levels (dotted ((b'c' ∷ []) ∷ query)) 7
    ≡ some (
        or_default
          (longest_tag (first_tag read_lists.0 (ordered_tags false)) ((b'c' ∷ []) ∷ query))
          7)
dnl_get_tag-longest_tag_example =
    dnl_get_tag-longest_tag first_byte two_files filenames stdin_words false (b'c' ∷ []) query 7
      {loaded = read_lists.0} {input = read_lists.1} {dnl = lists} two_files-AreScanned
      (omega arith, tt) refl lists_are_read
      (
        (λ e. omega (arith, e), tt),
        ((λ e. omega (arith, e), tt), ((λ e. omega (arith, e), tt), tt)),
      )
      (omega arith) (omega arith)

abbrev small_pages : Pages
small_pages = record { size = 4096; maps = λ size. true }

abbrev no_memory : Memory
no_memory = record { cap = 0; end = 0; cells = [] }

small_names_fit : 0 + total_size first_byte small_pages 1 text_words + 4096 < 2 ^ 32
unfolding add_name
small_names_fit = omega arith

write_names-names_from_example :
    (addr0 : ℕ) × (count : ℕ) × (memory' : Memory) × (write_names first_byte small_pages 1
        text_words 0 0 no_memory
      ≡ some (addr0, count, memory'))
    × IsWithin memory'
    × (count ≡ 2)
    × (names_from memory'.cells count addr0
        ≡ some (map (name_of first_byte small_pages 1) text_words))
write_names-names_from_example =
    write_names-names_from first_byte small_pages 1 (b'a' ∷ b'.' ∷ b'b' ∷ [])
      ((b'#' ∷ b'b' ∷ []) ∷ []) no_memory (omega arith, λ size h. refl) (omega arith)
      small_names_fit
