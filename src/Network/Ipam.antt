-- ===== src/Network/Ipam.antt =====
-- `IPAM` of src/core/network/ipam.rs: a bitmap of used addresses for each subnet. A method gives
-- its result and the new state, since it may fail after a change.
pub mod Address
pub mod Allocation
pub mod Sized
pub mod Subnets
pub mod Reload
use rtain.Base.{
  ℕ, zero, suc, ◌+◌, ◌-◌, ◌%◌, ◌^◌, String, Bool, true, false, List, [], ◌∷◌, Option, none, some,
  ltb, leb, ◌==◌, not, str_eq, if◌then◌else◌,
}
use rtain.Base.{Outcome, ok, err, panic, ◌>>=◌, ◌>>◌, ok_or, fail_if}
use rtain.Base.Dict
use rtain.Base.Dict.{Dict}
use rtain.Base.Bytes.{Bytes}
use rtain.Base.Text.{codes, split_once, parse_unsigned, parse_ipv4}
use rtain.Base.Words.{Profile, add_u32, sub_u32, pow2_u32, shl1_u32, clear_low}
use rtain.Network.BitVec.{BitVec}

-- `parse_cidr`: the address and the length of the prefix.
unfoldable pub parse_cidr : String → Outcome (ℕ × ℕ)
parse_cidr cidr = do
  (ip_str, len_str) ← ok_or (split_once b'/' (codes cidr)) "Invalid CIDR"
  ip ← parse_ipv4 ip_str
  len ← parse_unsigned (2 ^ 32) len_str
  fail_if (ltb 32 len) "Invalid prefix length"
  ok (ip, len)

module _ (profile : Profile) where
  -- `calculate_ip`
  unfoldable pub calculate_ip : String → ℕ → Outcome ℕ
  calculate_ip cidr index = do
    (subnet, prefix_len) ← parse_cidr cidr
    size ← shl1_u32 profile (32 - prefix_len)
    add_u32 profile (clear_low subnet size) index

  -- `ip_to_index`: the subnet's address is subtracted as it is written in the CIDR.
  unfoldable pub ip_to_index : ℕ → ℕ → ℕ → Outcome ℕ
  ip_to_index subnet ip prefix_len = do
    size ← shl1_u32 profile (32 - prefix_len)
    fail_if (not (clear_low subnet size == clear_low ip size)) "IP not in subnet"
    offset ← sub_u32 profile ip subnet
    sub_u32 profile offset 1

  -- How many addresses `add_subnet` makes room for.
  unfoldable pub total_ips : ℕ → Outcome ℕ
  total_ips prefix_len = do size ← pow2_u32 profile (32 - prefix_len); sub_u32 profile size 2

-- The bitmaps, by the text of the CIDR.
abbrev pub Ipam : BitVec → Type 0
Ipam B = Dict B.Bits

abbrev pub Answer : BitVec → Type 0 → Type 0
Answer B A = Outcome A × Ipam B

module _ (B : BitVec) (profile : Profile) where
  abbrev pub insert_subnet : String → Ipam B → Outcome ℕ → Answer B (Unit {0})
  insert_subnet cidr ipam (ok total) = (ok tt, Dict.insert cidr (B.zeros total) ipam)
  insert_subnet cidr ipam (err e) = (err e, ipam)
  insert_subnet cidr ipam panic = (panic, ipam)

  unfoldable pub add_subnet : String → Ipam B → Answer B (Unit {0})
  add_subnet cidr ipam =
      if Dict.contains_key cidr ipam
      then (err "Subnet already exists", ipam)
      else insert_subnet cidr ipam
          (do (_, prefix_len) ← parse_cidr cidr; total_ips profile prefix_len)

  -- The bit is set before the address is computed. (`pos as u32` keeps 32 bits.)
  abbrev pub take_bit : String → Ipam B → B.Bits → ℕ → Answer B ℕ
  take_bit cidr ipam bitmap pos = (
    (do index ← add_u32 profile (pos % 2 ^ 32) 1; calculate_ip profile cidr index),
    Dict.insert cidr (B.set bitmap pos true) ipam,
  )

  unfoldable pub allocate_ip : String → Ipam B → Answer B ℕ
  allocate_ip cidr ipam = elim (Dict.get cidr ipam) [
    | none ↦ (err "Subnet not found", ipam)
    | some bitmap ↦ elim (B.first_zero bitmap) [
      | some pos ↦ take_bit cidr ipam bitmap pos
      | none ↦ (err "No available IP", ipam)
    ]
  ]

  abbrev pub clear_bit : String → Ipam B → ℕ → Option B.Bits → Answer B (Unit {0})
  clear_bit cidr ipam pos none = (err "Subnet not found", ipam)
  clear_bit cidr ipam pos (some bitmap) =
      if leb (B.len bitmap) pos
      then (err "IP out of range", ipam)
      else if not (B.get bitmap pos)
      then (err "IP not allocated", ipam)
      else (ok tt, Dict.insert cidr (B.set bitmap pos false) ipam)

  unfoldable pub release_ip : String → ℕ → Ipam B → Answer B (Unit {0})
  release_ip cidr ip ipam =
      elim (do
        (subnet_ip, prefix_len) ← parse_cidr cidr
        ip_to_index profile subnet_ip ip prefix_len) [
          | ok pos ↦ clear_bit cidr ipam pos (Dict.get cidr ipam)
          | err e ↦ (err e, ipam)
          | panic ↦ (panic, ipam)
        ]

  unfoldable pub allocate_specific_ip : String → ℕ → Ipam B → Answer B ℕ
  allocate_specific_ip cidr index ipam = elim (Dict.get cidr ipam) [
    | none ↦ (err "Subnet not found", ipam)
    | some bitmap ↦
        if leb (B.len bitmap % 2 ^ 32) index
        then (err "IP out of range", ipam)
        else if B.get bitmap index
        then (err "IP already allocated", ipam)
        else (
          (do next ← add_u32 profile index 1; calculate_ip profile cidr next),
          Dict.insert cidr (B.set bitmap index true) ipam,
        )
  ]

  unfoldable pub allocate_gateway : String → Ipam B → Answer B ℕ
  unfolding allocate_specific_ip
  allocate_gateway cidr ipam = allocate_specific_ip cidr 0 ipam

-- `serialize_subnets` and `deserialize_subnets`: each bitmap as its bytes.
unfoldable pub serialize_subnets : (B : BitVec) → Ipam B → Dict Bytes
serialize_subnets B [] = []
serialize_subnets B ((cidr, bitmap) ∷ subnets) =
    (cidr, B.to_bytes bitmap) ∷ serialize_subnets B subnets

unfoldable pub deserialize_subnets : (B : BitVec) → Dict Bytes → Ipam B
deserialize_subnets B [] = []
deserialize_subnets B ((cidr, bytes) ∷ subnets) =
    (cidr, B.from_bytes bytes) ∷ deserialize_subnets B subnets
