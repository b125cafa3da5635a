-- ===== src/Api/Submit/IpAddr.antt =====
-- `std::net`: reading an IP address, and its classes, as src/api/submit/validation.rs uses them.
use unlimited_ocr_server.Prelude.{
  ℕ, zero, suc, ◌+◌, ◌-◌, ◌*◌, ◌/◌, ◌%◌, Text, Bool, true, false, not, ◌&&◌, ◌||◌, ◌==◌, leb, ltb,
  List, [], ◌∷◌, ◌++◌, length, replicate, Option, none, some, and_then, if◌then◌else◌, is_empty,
}

pub record Ipv4Addr : Type 0 where
  pub a : ℕ
  pub b : ℕ
  pub c : ℕ
  pub d : ℕ

-- Eight segments of 16 bits.
pub record Ipv6Addr : Type 0 where
  pub segments : List ℕ

pub data IpAddr : Type 0 where
  v4 : Ipv4Addr → IpAddr
  v6 : Ipv6Addr → IpAddr

-- `char::to_digit`
abbrev to_digit : (radix : ℕ) → ℕ → Option ℕ
to_digit radix c =
    let value =
      if leb b'0' c && leb c b'9'
      then c - b'0'
      else if leb b'a' c && leb c b'f'
      then c - b'a' + 10
      else if leb b'A' c && leb c b'F'
      then c - b'A' + 10
      else radix in
    if ltb value radix then some value else none

-- The value, the count of digits and the rest.
abbrev read_digits : (radix value count : ℕ) → Text → ℕ × ℕ × Text
read_digits radix value count [] = (value, count, [])
read_digits radix value count (c ∷ s) =
    let more = λ (digit : ℕ). read_digits radix (value * radix + digit) (count + 1) s in
    elim (to_digit radix c) [ none ↦ (value, count, c ∷ s) | some digit ↦ more digit ]

abbrev starts_with_zero : Text → Bool
starts_with_zero [] = false
starts_with_zero (c ∷ _) = c == b'0'

-- A parser gives its value and the rest of the text, or nothing.
unfoldable pub read_number :
    (radix max_digits max_value : ℕ) (allow_zero_prefix : Bool) → Text → Option (ℕ × Text)
read_number radix max_digits max_value allow_zero_prefix s =
    let (value, count, rest) = read_digits radix 0 0 s in
    if count == 0
      || ltb max_digits count
      || ltb max_value value
      || (not allow_zero_prefix && starts_with_zero s && ltb 1 count)
    then none
    else some (value, rest)

abbrev read_given_char : ℕ → Text → Option Text
read_given_char c [] = none
read_given_char c (x ∷ s) = if x == c then some s else none

abbrev read_octet : Text → Option (ℕ × Text)
read_octet s = read_number 10 3 255 false s

abbrev read_next_octet : Text → Option (ℕ × Text)
read_next_octet s = and_then (read_given_char b'.' s) read_octet

unfoldable pub read_ipv4_addr : Text → Option (Ipv4Addr × Text)
read_ipv4_addr s = and_then (read_octet s) (λ (a, s). and_then (read_next_octet s) (λ (b, s).
    and_then (read_next_octet s) (λ (c, s).
      and_then (read_next_octet s) (λ (d, s). some (record { a = a; b = b; c = c; d = d }, s)))))

-- `read_separator` for a colon: none before the first group.
abbrev read_colon : (is_first : Bool) → Text → Option Text
read_colon true s = some s
read_colon false s = read_given_char b':' s

pub record Groups : Type 0 where
  pub groups : List ℕ
  pub ends_in_ipv4 : Bool
  pub rest : Text

-- `read_groups` with `left` slots to fill.
unfoldable pub read_groups : (left : ℕ) (is_first : Bool) → Text → Groups
read_groups zero is_first s = record { groups = []; ends_in_ipv4 = false; rest = s }
read_groups (suc left) is_first s =
    let after = read_colon is_first s in
    let group : Groups = elim (and_then after (read_number 16 4 65535 true)) [
      | none ↦ record { groups = []; ends_in_ipv4 = false; rest = s }
      | some (g, s') ↦
          let more = read_groups left false s' in record more { groups = g ∷ more.groups }
    ] in
    if left == 0 then group else elim (and_then after read_ipv4_addr) [
      | none ↦ group
      | some (ip, s') ↦ record {
        groups = (ip.a * 256 + ip.b) ∷ (ip.c * 256 + ip.d) ∷ [];
        ends_in_ipv4 = true;
        rest = s';
      }
    ]

unfoldable pub read_ipv6_addr : Text → Option (Ipv6Addr × Text)
read_ipv6_addr s =
    let head = read_groups 8 true s in
    if length head.groups == 8
    then some (record { segments = head.groups }, head.rest)
    else if head.ends_in_ipv4
    then none
    else and_then (and_then (read_given_char b':' head.rest) (read_given_char b':')) (λ s'.
      let tail = read_groups (8 - (length head.groups + 1)) true s' in
      let gap = replicate (8 - length head.groups - length tail.groups) 0 in
      some (record { segments = head.groups ++ gap ++ tail.groups }, tail.rest))

abbrev whole {ℓ} : {A : Type ℓ} → A × Text → Option A
whole (a, rest) = if is_empty rest then some a else none

-- `str::parse::<IpAddr>`
unfoldable pub parse_ip : Text → Option IpAddr
parse_ip s = elim (read_ipv4_addr s) [
  | some (ip, rest) ↦ whole (v4 ip, rest)
  | none ↦ and_then (read_ipv6_addr s) (λ (ip, rest). whole (v6 ip, rest))
]

abbrev pub is_private : Ipv4Addr → Bool
is_private ip =
    ip.a == 10 || (ip.a == 172 && leb 16 ip.b && leb ip.b 31) || (ip.a == 192 && ip.b == 168)

abbrev pub is_loopback : Ipv4Addr → Bool
is_loopback ip = ip.a == 127

abbrev pub is_link_local : Ipv4Addr → Bool
is_link_local ip = ip.a == 169 && ip.b == 254

abbrev pub is_broadcast : Ipv4Addr → Bool
is_broadcast ip = ip.a == 255 && ip.b == 255 && ip.c == 255 && ip.d == 255

abbrev pub is_documentation : Ipv4Addr → Bool
is_documentation ip =
    (ip.a == 192 && ip.b == 0 && ip.c == 2)
    || (ip.a == 198 && ip.b == 51 && ip.c == 100)
    || (ip.a == 203 && ip.b == 0 && ip.c == 113)

abbrev pub is_unspecified : Ipv4Addr → Bool
is_unspecified ip = ip.a == 0 && ip.b == 0 && ip.c == 0 && ip.d == 0

abbrev all_zero : (up_to : ℕ) → List ℕ → Bool
all_zero zero s = true
all_zero (suc n) [] = false
all_zero (suc n) (x ∷ s) = x == 0 && all_zero n s

abbrev segment : ℕ → List ℕ → ℕ
segment i [] = 0
segment zero (x ∷ s) = x
segment (suc i) (x ∷ s) = segment i s

abbrev pub is_loopback6 : Ipv6Addr → Bool
is_loopback6 ip = all_zero 7 ip.segments && segment 7 ip.segments == 1

abbrev pub is_unspecified6 : Ipv6Addr → Bool
is_unspecified6 ip = all_zero 8 ip.segments

-- `segments()[0] & 0xfe00 == 0xfc00`
abbrev pub is_unique_local : Ipv6Addr → Bool
is_unique_local ip = segment 0 ip.segments / 512 == 126

-- `segments()[0] & 0xffc0 == 0xfe80`
abbrev pub is_unicast_link_local : Ipv6Addr → Bool
is_unicast_link_local ip = segment 0 ip.segments / 64 == 1018

abbrev pub to_ipv4_mapped : Ipv6Addr → Option Ipv4Addr
to_ipv4_mapped ip =
    let high = segment 6 ip.segments in
    let low = segment 7 ip.segments in
    if all_zero 5 ip.segments && segment 5 ip.segments == 65535
    then some (record { a = high / 256; b = high % 256; c = low / 256; d = low % 256 })
    else none
