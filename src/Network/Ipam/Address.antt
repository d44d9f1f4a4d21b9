-- ===== src/Network/Ipam/Address.antt =====
-- The addresses of a subnet: `parse_cidr`, `calculate_ip` and `ip_to_index`.
use rtain.Base.{
  ℕ, zero, suc, ◌+◌, ◌-◌, ◌*◌, ◌/◌, ◌^◌, ◌≤◌, ◌<◌, ◌≡◌, ◌⊎◌, inl, inr, refl, ◌%◌, ap, ◌∙◌, String,
  List, [], ◌∷◌, arith, dec_lt,
}
use rtain.Base.{ok, panic, >>=-eq-ok, ok_or}
use Prim.Native.Nat.add
use mathlib.Core.Path.{subst}
use native.Mathlib.Nat.{pow-suc}
use rtain.Base.Text.{codes, digits, octet, four, split, split_once, parse_unsigned, parse_ipv4}
use rtain.Base.Words.{Profile, debug, release, add_u32, sub_u32, shl1_u32, clear_low}
use rtain.Network.Ipam.{parse_cidr, calculate_ip, ip_to_index}

pow_add : (a b : ℕ) → 2 ^ (a + b) ≡ 2 ^ a * 2 ^ b
pow_add zero b = rw (add.zero b) (omega arith)
pow_add (suc a) b =
    rw (add.suc a b) (rw (pow-suc 2 (a + b), pow-suc 2 a) (omega (arith, pow_add a b)))

pub pow_pos : (n : ℕ) → 1 ≤ 2 ^ n
pow_pos zero = omega arith
pow_pos (suc n) = omega (arith, pow-suc 2 n, pow_pos n)

digits-lt :
    (limit acc : ℕ) (cs : List ℕ) (n : ℕ) → acc < limit → digits limit acc cs ≡ ok n → n < limit
unfolding digits
digits-lt limit acc [] n h e = ground arith
digits-lt limit acc (c ∷ cs) n h e = ground (arith, digits-lt limit (acc * 10 + (c - b'0')) cs n)

octet-lt : (cs : List ℕ) (n : ℕ) → octet cs ≡ ok n → n < 256
unfolding octet
octet-lt [] n e = absurd (cc)
octet-lt (c ∷ cs) n e = ground (arith, digits-lt 256 0 (c ∷ cs) n)

parse_ipv4-lt : (cs : List ℕ) (ip : ℕ) → parse_ipv4 cs ≡ ok ip → ip < 2 ^ 32
unfolding parse_ipv4
parse_ipv4-lt cs ip e = split_four (split b'.' cs) e
  where
    split_four : (parts : List (List ℕ)) → four parts ≡ ok ip → ip < 2 ^ 32
    split_four [] h = absurd (cc)
    split_four (a ∷ []) h = absurd (cc)
    split_four (a ∷ b ∷ []) h = absurd (cc)
    split_four (a ∷ b ∷ c ∷ []) h = absurd (cc)
    split_four (a ∷ b ∷ c ∷ d ∷ []) h =
        let (w, ew, h1) = >>=-eq-ok (octet a) _ h in
        let (x, ex, h2) = >>=-eq-ok (octet b) _ h1 in
        let (y, ey, h3) = >>=-eq-ok (octet c) _ h2 in
        let (z, ez, h4) = >>=-eq-ok (octet d) _ h3 in
        let sum : w * 2 ^ 24 + x * 2 ^ 16 + y * 2 ^ 8 + z ≡ ip = cc in
        omega (arith, sum, octet-lt a w ew, octet-lt b x ex, octet-lt c y ey, octet-lt d z ez)
    split_four (a ∷ b ∷ c ∷ d ∷ e' ∷ more) h = absurd (cc)

-- A CIDR that is accepted has an address of 32 bits and a prefix of at most 32.
pub parse_cidr-in_range :
    (cidr : String) (ip len : ℕ) → parse_cidr cidr ≡ ok (ip, len) → (ip < 2 ^ 32) × (len ≤ 32)
unfolding parse_cidr
parse_cidr-in_range cidr ip len e =
    let ((ip_str, len_str), _, h1) =
      >>=-eq-ok (ok_or (split_once b'/' (codes cidr)) "Invalid CIDR") _ e in
    let (i, ei, h2) = >>=-eq-ok (parse_ipv4 ip_str) _ h1 in
    let (l, el, h3) = >>=-eq-ok (parse_unsigned (2 ^ 32) len_str) _ h2 in
    (ground (arith, parse_ipv4-lt ip_str i ei), ground arith)

-- The addresses of a prefix: how many there are, and the first of them.
abbrev pub block : ℕ → ℕ
block len = 2 ^ (32 - len)

abbrev pub base : ℕ → ℕ → ℕ
base ip len = clear_low ip (block len)

pub block_pos : (len : ℕ) → 1 ≤ block len
block_pos len = pow_pos (32 - len)

quotient-lt : (x p r : ℕ) → x < p * r → x / p < r
quotient-lt x p r h = elim (dec_lt (x / p) r) [
  | yes below ↦ below
  | no above ↦ let least : p * r ≤ p * (x / p) = grind arith in absurd (omega (arith, least))
]

block_le : (x p r : ℕ) → x < p * r → x / p * p + p ≤ p * r
block_le x p r h = let below = quotient-lt x p r h in grind arith

-- The last address of the block is one of 32 bits.
block_fits : (ip len : ℕ) → ip < 2 ^ 32 → len ≤ 32 → base ip len + block len ≤ 2 ^ 32
block_fits ip len h l =
    let bits : 32 ≡ 32 - len + len = omega arith in
    let whole : 2 ^ 32 ≡ block len * 2 ^ len =
      ap (λ (n : ℕ). 2 ^ n) bits ∙ pow_add (32 - len) len in
    rw whole (block_le ip (block len) (2 ^ len) (rw whole at h))

module _ (profile : Profile) (cidr : String) (ip len : ℕ)
    (parsed : parse_cidr cidr ≡ ok (ip, len)) where
  -- With a prefix of one bit or more, `calculate_ip` counts from the first address of the block, and
  -- overflows nowhere inside it.
  pub calculate_ip-eq :
      (index : ℕ)
      → 1 ≤ len
      → index < block len
      → calculate_ip profile cidr index ≡ ok (base ip len + index)
  unfolding calculate_ip shl1_u32 add_u32
  calculate_ip-eq index some_prefix h =
      let range = parse_cidr-in_range cidr ip len parsed in
      rw parsed (ground (arith, block_fits ip len range.0 range.1))

module _ (cidr : String) (ip : ℕ) (parsed : parse_cidr cidr ≡ ok (ip, 0)) (index : ℕ) where
  whole_range-debug : calculate_ip debug cidr index ≡ panic
  unfolding calculate_ip shl1_u32
  whole_range-debug = rw parsed refl

  whole_range-release : calculate_ip release cidr index ≡ ok ((ip + index) % 2 ^ 32)
  unfolding calculate_ip shl1_u32 add_u32
  whole_range-release = rw parsed (ground arith)

-- At an index inside the block, `calculate_ip` gives the address at this place behind the first, in
-- both builds and without an overflow, when the prefix has one bit or more. With a prefix of no bits
-- a debug build panics, and a release build counts from the subnet's address as it is written, modulo
-- 2 ^ 32.
pub calculate_ip-outcome :
    (cidr : String) (ip len index : ℕ)
    → parse_cidr cidr ≡ ok (ip, len)
    → index < block len
    → ((1 ≤ len)
        × (base ip len + index < 2 ^ 32)
        × ((profile : Profile) → calculate_ip profile cidr index ≡ ok (base ip len + index)))
      ⊎ ((len ≡ 0)
          × (calculate_ip debug cidr index ≡ panic)
          × (calculate_ip release cidr index ≡ ok ((ip + index) % 2 ^ 32)))
calculate_ip-outcome cidr ip zero index parsed h =
    inr (refl, whole_range-debug cidr ip parsed index, whole_range-release cidr ip parsed index)
calculate_ip-outcome cidr ip (suc len) index parsed h =
    let (below, most) = parse_cidr-in_range cidr ip (suc len) parsed in
    inl (
      omega arith,
      omega (arith, block_fits ip (suc len) below most),
      λ profile. calculate_ip-eq profile cidr ip (suc len) parsed index (omega arith) h,
    )

same_block : (q p i : ℕ) → i < p → (q * p + i) / p * p ≡ q * p
same_block q p i h = grind arith

-- An address of a subnet whose own address is the first of its block has the index from which it
-- was computed.
pub ip_to_index-eq :
    (profile : Profile) (ip len index : ℕ)
    → 1 ≤ len
    → base ip len ≡ ip
    → index + 1 < block len
    → ip_to_index profile ip (ip + (index + 1)) len ≡ ok index
unfolding ip_to_index shl1_u32 sub_u32
ip_to_index-eq profile ip len index some_prefix aligned h =
    let same : base (ip + (index + 1)) len ≡ ip =
      subst (λ (b : ℕ). (b + (index + 1)) / block len * block len ≡ b) aligned
        (same_block (ip / block len) (block len) (index + 1) h) in
    ground arith

-- Under a prefix of one bit or more, an address of the block that is not behind the subnet's own
-- address has no index in a debug build: a subtraction overflows.
pub ip_to_index_panics :
    (ip addr len : ℕ)
    → 1 ≤ len
    → base addr len ≡ base ip len
    → addr ≤ ip
    → ip_to_index debug ip addr len ≡ panic
unfolding ip_to_index shl1_u32 sub_u32
ip_to_index_panics ip addr len some_prefix same h = ground arith

-- With a prefix of one bit at least, a block is at most half of all addresses.
pub block_half : (len : ℕ) → 1 ≤ len → len ≤ 32 → 2 * block len ≤ 2 ^ 32
block_half len some_prefix l =
    let bits : 32 ≡ 32 - len + len = omega arith in
    let whole : 2 ^ 32 ≡ block len * 2 ^ len =
      ap (λ (n : ℕ). 2 ^ n) bits ∙ pow_add (32 - len) len in
    let one_bit : len ≡ suc (len - 1) = omega arith in
    let two : 2 ^ len ≡ 2 ^ (len - 1) * 2 = ap (λ (n : ℕ). 2 ^ n) one_bit ∙ pow-suc 2 (len - 1) in
    let pos : 1 ≤ 2 ^ (len - 1) = pow_pos (len - 1) in rw (whole, two) (grind arith)
