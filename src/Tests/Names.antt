-- ===== src/Tests/Names.antt =====
-- Names between the two notations.
use chinadns_ng.Prelude.{◌≡◌, refl, ◌≤◌, some, none, [], ◌∷◌, ◌++◌, arith, length}
use chinadns_ng.Prelude.Words.{Bytes}
use chinadns_ng.Dns.Header.{dns_ascii_namelen, name_wire_maxlen}
use chinadns_ng.Dns.Name.{decode_name, dns_ascii_to_wire, dns_wire_to_ascii}
use chinadns_ng.Dns.Name.Encode.{decode_name-dns_ascii_to_wire, names_agree}

program : Unit {0}
unfolding decode_name dns_ascii_to_wire dns_wire_to_ascii dns_ascii_namelen
program = tt

abbrev name_ab : Bytes
name_ab = 97 ∷ b'.' ∷ 98 ∷ []

abbrev wire_ab : Bytes
wire_ab = 1 ∷ 97 ∷ 1 ∷ 98 ∷ 0 ∷ []

ab_encodes : dns_ascii_to_wire name_ab ≡ some (wire_ab, 2)
unfolding program
ab_encodes = refl

ab_decodes : dns_wire_to_ascii wire_ab ≡ some (some (name_ab ++ 0 ∷ []))
unfolding program
ab_decodes = refl

root_decodes : decode_name (0 ∷ []) ≡ some (b'.' ∷ 0 ∷ [])
unfolding program
root_decodes = refl

double_dot_fails : dns_ascii_to_wire (97 ∷ b'.' ∷ b'.' ∷ []) ≡ none
unfolding program
double_dot_fails = refl

final_dot_fails : dns_ascii_to_wire (97 ∷ b'.' ∷ []) ≡ none
unfolding program
final_dot_fails = refl

decode_name-dns_ascii_to_wire_example :
    (decode_name wire_ab ≡ some (name_ab ++ 0 ∷ []))
    × (length wire_ab ≤ name_wire_maxlen)
    × (dns_ascii_namelen (length wire_ab) ≡ length name_ab)
decode_name-dns_ascii_to_wire_example =
    decode_name-dns_ascii_to_wire name_ab (wire_ab, 2) ab_encodes

names_agree_example :
    (decode_name wire_ab ≡ some (name_ab ++ 0 ∷ []))
    × (dns_ascii_to_wire name_ab ≡ some (wire_ab, 2))
names_agree_example =
    names_agree (97 ∷ []) ((98 ∷ []) ∷ [])
      ((omega arith, omega arith), ((omega arith, omega arith), tt))
      ((omega arith, tt), ((omega arith, tt), tt)) (omega arith)

wire_decodes : decode_name wire_ab ≡ some (name_ab ++ 0 ∷ [])
unfolding program
wire_decodes = refl
