-- ===== src/Network/Ipam/Allocation.antt =====
-- What `allocate_ip` and `release_ip` do with the bitmap, and which addresses they hand out.
use rtain.Base.{
  ℕ, ◌+◌, ◌-◌, ◌%◌, ◌^◌, ◌≤◌, ◌<◌, ◌≡◌, refl, ◌∙◌, String, some, none, true, false, ◌⊎◌, inl, inr,
  arith, ◌==◌, if◌then◌else◌, Option-cases, eq_refl,
}
use rtain.Base.{ok, err}
use rtain.Base.Dict
use rtain.Base.Dict.{get-insert}
use rtain.Base.Words.{Profile, add_u32}
use rtain.Network.BitVec.{BitVec, IsLawful}
use rtain.Network.Ipam.{Ipam, parse_cidr, ip_to_index, allocate_ip, release_ip}
use rtain.Network.Ipam.Address.{
  block, base, block_half, parse_cidr-in_range, calculate_ip-eq, ip_to_index-eq,
}

-- A sum that fits does not overflow.
pub add_u32-small :
    (profile : Profile) (a b : ℕ) → a + b < 2 ^ 32 → add_u32 profile (a % 2 ^ 32) b ≡ ok (a + b)
unfolding add_u32
add_u32-small profile a b h = ground arith

module _ (B : BitVec) (lawful : IsLawful B) (profile : Profile) where
  -- The bits of a bitmap are those of another, but for one that is set.
  abbrev Taken : B.Bits → ℕ → B.Bits → Type 0
  Taken b pos b' =
      (B.len b' ≡ B.len b) × ((j : ℕ) → B.get b' j ≡ (if pos == j then true else B.get b j))

  -- `allocate_ip` answers with the address of the lowest free bit, which lies behind the first
  -- address of the subnet and before the last, and sets this bit; when no bit is free, it fails and
  -- changes nothing.
  abbrev pub TakesLowest : String → ℕ → ℕ → Ipam B → B.Bits → Type 0
  TakesLowest cidr ip len ipam bitmap =
      ((pos : ℕ) × (pos < B.len bitmap)
        × (B.get bitmap pos ≡ false)
        × ((j : ℕ) → j < pos → B.get bitmap j ≡ true)
        × (base ip len < base ip len + (pos + 1))
        × (base ip len + (pos + 1) < base ip len + block len - 1)
        × (allocate_ip B profile cidr ipam
            ≡ (ok (base ip len + (pos + 1)), Dict.insert cidr (B.set bitmap pos true) ipam)))
      ⊎ (((j : ℕ) → j < B.len bitmap → B.get bitmap j ≡ true)
          × (allocate_ip B profile cidr ipam ≡ (err "No available IP", ipam)))

  module _ (cidr : String) (ip len : ℕ) (parsed : parse_cidr cidr ≡ ok (ip, len))
      (some_prefix : 1 ≤ len) (ipam : Ipam B) (bitmap : B.Bits)
      (known : Dict.get cidr ipam ≡ some bitmap) (sized : B.len bitmap + 2 ≤ block len) where
    pos_small : (pos : ℕ) → pos < B.len bitmap → pos + 1 < 2 ^ 32
    pos_small pos h =
        let half = block_half len some_prefix (parse_cidr-in_range cidr ip len parsed).1 in
        omega arith

    allocate_ip-first_zero :
        (pos : ℕ)
        → B.first_zero bitmap ≡ some pos
        → allocate_ip B profile cidr ipam
          ≡ (ok (base ip len + (pos + 1)), Dict.insert cidr (B.set bitmap pos true) ipam)
    unfolding allocate_ip
    allocate_ip-first_zero pos e =
        let bound = (lawful.first_zero-some bitmap pos e).0 in
        let small = pos_small pos bound in
        let inside : pos + 1 < block len = ground arith in
        let address = calculate_ip-eq profile cidr ip len parsed (pos + 1) some_prefix inside in
        let next : add_u32 profile (pos % 2 ^ 32) 1 ≡ ok (pos + 1) =
          add_u32-small profile pos 1 small in
        rw (known, allocate_ip) (rw (e, allocate_ip) (rw (next, address) refl))

    pub allocate_ip-full :
        B.first_zero bitmap ≡ none → allocate_ip B profile cidr ipam ≡ (err "No available IP", ipam)
    unfolding allocate_ip
    allocate_ip-full e = rw (known, allocate_ip) (rw (e, allocate_ip) refl)

    pub allocate_ip-lowest_free : TakesLowest cidr ip len ipam bitmap
    allocate_ip-lowest_free = elim (Option-cases (B.first_zero bitmap)) [
      | inr (pos, e) ↦
          let (bound, free, lower) = lawful.first_zero-some bitmap pos e in
          inl (pos, bound, free, lower, ground arith, ground arith, allocate_ip-first_zero pos e)
      | inl e ↦ inr (lawful.first_zero-none bitmap e, allocate_ip-full e)
    ]

    release_ip-taken :
        (pos : ℕ) (aligned : base ip len ≡ ip) (taken : B.Bits)
        → taken ≡ B.set bitmap pos true
        → B.first_zero bitmap ≡ some pos
        → release_ip B profile cidr (base ip len + (pos + 1)) (Dict.insert cidr taken ipam)
          ≡ (ok tt, Dict.insert cidr (B.set taken pos false) (Dict.insert cidr taken ipam))
    unfolding release_ip
    release_ip-taken pos aligned taken set e =
        let (bound, free, _) = lawful.first_zero-some bitmap pos e in
        let inside : pos + 1 < block len = ground arith in
        let size : B.len taken ≡ B.len bitmap = rw set (lawful.len-set bitmap pos true bound) in
        let is_set : B.get taken pos ≡ true =
          rw set (rw (lawful.get-set bitmap pos pos true bound) (ground arith)) in
        let index : ip_to_index profile ip (base ip len + (pos + 1)) len ≡ ok pos =
          rw aligned (ip_to_index-eq profile ip len pos some_prefix aligned inside) in
        let same : Dict.get cidr (Dict.insert cidr taken ipam) ≡ some taken =
          rw (get-insert cidr cidr taken ipam) (rw (eq_refl cidr) refl) in
        rw (parsed, release_ip) (rw index (rw same (rw is_set (ground arith))))

    -- Releasing an address just allocated frees it again: the bits are those from before. The subnet
    -- is aligned, has a prefix of one bit or more, and its bitmap has no more bits than there are
    -- addresses between the first and the last.
    pub release-allocate :
        (pos : ℕ)
        → base ip len ≡ ip
        → B.first_zero bitmap ≡ some pos
        → (freed : B.Bits) × ((j : ℕ) → B.get freed j ≡ B.get bitmap j)
          × (B.len freed ≡ B.len bitmap)
          × (release_ip B profile cidr (base ip len + (pos + 1)) (allocate_ip B profile cidr ipam).1
              ≡ (ok tt, Dict.insert cidr freed (Dict.insert cidr (B.set bitmap pos true) ipam)))
    release-allocate pos aligned e =
        let (bound, free, _) = lawful.first_zero-some bitmap pos e in
        let taken : B.Bits = B.set bitmap pos true in
        let size = lawful.len-set bitmap pos true bound in
        let in_taken : pos < B.len taken = ground arith in
        (
          B.set taken pos false,
          (λ j.
              rw (lawful.get-set taken pos j false in_taken, lawful.get-set bitmap pos j true bound)
                (ground arith)),
          lawful.len-set taken pos false in_taken ∙ size,
          rw (allocate_ip-first_zero pos e) (release_ip-taken pos aligned taken refl e),
        )
