-- ===== src/Dns/Name/Labels.antt =====
-- The labels of a domain name, as the specification of src/dns.c's two notations: the wire form
-- "\3www\2cn" and the dotted form "www.cn".
use chinadns_ng.Prelude.{◌≤◌, List, [], ◌∷◌, ◌++◌, ◌≡◌, ◌≢◌, length, length-append, arith, All}
use chinadns_ng.Prelude.Words.{Bytes}
use chinadns_ng.Dns.Header.{label_maxlen}

abbrev pub IsLabel : Bytes → Type 0
IsLabel l = (1 ≤ length l) × (length l ≤ label_maxlen)

-- The labels of a name, each with its length byte in front; the null label is not included.
abbrev pub encode_labels : List Bytes → Bytes
encode_labels [] = []
encode_labels (l ∷ ls) = length l ∷ l ++ encode_labels ls

-- The wire form of a name, with the null label.
abbrev pub wire_name : List Bytes → Bytes
wire_name ls = encode_labels ls ++ 0 ∷ []

-- Each label behind a dot.
abbrev pub dot_labels : List Bytes → Bytes
dot_labels [] = []
dot_labels (l ∷ ls) = b'.' ∷ l ++ dot_labels ls

-- The ASCII form of a name.
abbrev pub dotted : List Bytes → Bytes
dotted [] = []
dotted (l ∷ ls) = l ++ dot_labels ls

-- No byte of the label is a dot, so the ASCII form splits where the wire form does.
abbrev pub HasNoDot : Bytes → Type 0
HasNoDot = All (λ c. c ≢ b'.')

pub length-encode_labels : (ls : List Bytes) → length (encode_labels ls) ≡ length (dot_labels ls)
length-encode_labels [] = omega arith
length-encode_labels (l ∷ ls) = omega (
  arith,
  length-append l (encode_labels ls),
  length-append l (dot_labels ls),
  length-encode_labels ls,
)
