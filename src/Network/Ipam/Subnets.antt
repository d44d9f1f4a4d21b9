-- ===== src/Network/Ipam/Subnets.antt =====
-- No operation on a subnet takes a subnet away.
use rtain.Base.{
  ℕ, ◌≡◌, refl, ◌%◌, ◌^◌, String, Bool, true, false, not, Option, none, some, eq_refl, leb,
  if◌then◌else◌, Outcome, ok, err, panic, ◌>>=◌, Option-cases, Bool-cases, inl, inr, arith,
}
use rtain.Base.Dict
use rtain.Base.Dict.{get-insert}
use rtain.Base.Words.{Profile}
use rtain.Network.BitVec.{BitVec}
use rtain.Network.Ipam.{
  Ipam, Answer, parse_cidr, ip_to_index, total_ips, insert_subnet, add_subnet, allocate_specific_ip,
  allocate_gateway, clear_bit, release_ip,
}

contains_key-insert {ℓ} :
    {V : Type ℓ} (k j : String) (v : V) (d : Dict.Dict V)
    → Dict.contains_key j d ≡ true
    → Dict.contains_key j (Dict.insert k v d) ≡ true
unfolding Dict.contains_key
contains_key-insert k j v d h = rw (get-insert k j v d, Dict.contains_key) (ground arith)

contains_key-inserted {ℓ} :
    {V : Type ℓ} (k : String) (v : V) (d : Dict.Dict V)
    → Dict.contains_key k (Dict.insert k v d) ≡ true
unfolding Dict.contains_key
contains_key-inserted k v d = rw (get-insert k k v d, Dict.contains_key) (rw (eq_refl k) refl)

if_both {ℓ} :
    {A : Type ℓ} (P : A → Type 0) (c : Bool) {x y : A} → P x → P y → P (if c then x else y)
if_both P true px py = px
if_both P false px py = py

module _ (B : BitVec) (profile : Profile) (cidr key : String) where
  -- The state of an answer has the subnet.
  abbrev Keeps : {A : Type 0} → Answer B A → Type 0
  Keeps answer = Dict.contains_key key answer.1 ≡ true

  module _ (ipam : Ipam B) (has : Dict.contains_key key ipam ≡ true) where
    pub allocate_gateway-keeps :
        Dict.contains_key key (allocate_gateway B profile cidr ipam).1 ≡ true
    unfolding allocate_gateway allocate_specific_ip
    allocate_gateway-keeps = elim (Option-cases (Dict.get cidr ipam)) [
      | inl missing ↦ rw (missing, allocate_specific_ip) has
      | inr (bitmap, e) ↦
          rw (e, allocate_specific_ip)
            (if_both (Keeps {A = ℕ}) (leb (B.len bitmap % 2 ^ 32) 0) has (
              if_both (Keeps {A = ℕ}) (B.get bitmap 0) has
                (contains_key-insert cidr key (B.set bitmap 0 true) ipam has)))
    ]

    clear_bit-Keeps : (pos : ℕ) (o : Option B.Bits) → Keeps (clear_bit B profile cidr ipam pos o)
    clear_bit-Keeps pos none = has
    clear_bit-Keeps pos (some bitmap) =
        if_both (Keeps {A = Unit {0}}) (leb (B.len bitmap) pos) has (
          if_both (Keeps {A = Unit {0}}) (not (B.get bitmap pos)) has
            (contains_key-insert cidr key (B.set bitmap pos false) ipam has))

    pub release_ip-keeps :
        (ip : ℕ) → Dict.contains_key key (release_ip B profile cidr ip ipam).1 ≡ true
    unfolding release_ip
    release_ip-keeps ip =
        kept (parse_cidr cidr >>= λ subnet. ip_to_index profile subnet.0 ip subnet.1)
      where
        kept :
            (o : Outcome ℕ)
            → Keeps {A = Unit {0}} (elim o [
              | ok pos ↦ clear_bit B profile cidr ipam pos (Dict.get cidr ipam)
              | err e ↦ (err e, ipam)
              | panic ↦ (panic, ipam)
            ])
        kept (ok pos) = clear_bit-Keeps pos (Dict.get cidr ipam)
        kept (err e) = has
        kept panic = has

module _ (B : BitVec) (profile : Profile) (cidr : String) (ipam : Ipam B) where
  pub add_subnet-known :
      Dict.contains_key cidr ipam ≡ true
      → add_subnet B profile cidr ipam ≡ (err "Subnet already exists", ipam)
  unfolding add_subnet
  add_subnet-known has = rw has refl

  pub add_subnet-has :
      (ipam' : Ipam B)
      → add_subnet B profile cidr ipam ≡ (ok tt, ipam')
      → Dict.contains_key cidr ipam' ≡ true
  unfolding add_subnet
  add_subnet-has ipam' e = elim (Bool-cases (Dict.contains_key cidr ipam)) [
    | inl has ↦ let failed = add_subnet-known has in absurd (cc)
    | inr new ↦ added (parse_cidr cidr >>= λ subnet. total_ips profile subnet.1) (rw new at e)
  ]
    where
      added :
          (o : Outcome ℕ)
          → insert_subnet B profile cidr ipam o ≡ (ok tt, ipam')
          → Dict.contains_key cidr ipam' ≡ true
      added (ok total) h =
          let same : Dict.insert cidr (B.zeros total) ipam ≡ ipam' = cc in
          rw⁻¹ same (contains_key-inserted cidr (B.zeros total) ipam)
      added (err e) h = absurd (cc)
      added panic h = absurd (cc)
