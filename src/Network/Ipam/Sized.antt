-- ===== src/Network/Ipam/Sized.antt =====
-- The sizes of the bitmaps of `IPAM` (src/core/network/ipam.rs) in a daemon that found no file of
-- networks, and the addresses that it then hands out.
use mathlib.Core.Path.{subst}
use native.Mathlib.Nat.{pow-suc}
use text.Mathlib.TextEquality.{eq_iff}
use rtain.Base.{
  ℕ, suc, ◌+◌, ◌-◌, ◌*◌, ◌%◌, ◌^◌, ◌≤◌, ◌<◌, ◌≡◌, sym, ◌∙◌, refl, String, Bool, true, false, some,
  inl, inr, arith, leb, str_eq, Option-cases, Bool-cases, Outcome, ok, err, panic, ◌>>=◌, [],
}
use rtain.Base.Dict
use rtain.Base.Dict.{get-insert, get-nil}
use rtain.Base.Words.{Profile, pow2_u32, sub_u32}
use rtain.Network.BitVec.{BitVec, IsLawful}
use rtain.Network.Ipam.{
  Ipam, Answer, parse_cidr, ip_to_index, total_ips, insert_subnet, add_subnet, allocate_ip,
  allocate_specific_ip, allocate_gateway, clear_bit, release_ip,
}
use rtain.Network.Ipam.Address.{block, pow_pos}
use rtain.Network.Ipam.Allocation.{TakesLowest, allocate_ip-lowest_free}

-- `add_subnet` makes room for all addresses but the first and the last.
total_ips-fits :
    (profile : Profile) (len total : ℕ)
    → 1 ≤ len
    → len ≤ 31
    → total_ips profile len ≡ ok total
    → total + 2 ≤ block len
unfolding total_ips pow2_u32 sub_u32
total_ips-fits profile len total l1 l2 e =
    let two : 2 ^ suc (31 - len) ≡ 2 ^ (31 - len) * 2 = pow-suc 2 (31 - len) in
    let same : 32 - len ≡ suc (31 - len) = omega arith in
    let least : 2 ≤ block len = rw (same, two) (omega (arith, pow_pos (31 - len))) in
    ground (arith, least)

module _ (B : BitVec) (profile : Profile) where
  -- The subnets of a daemon that started with none: what the operations make of them.
  pub data Grown : Ipam B → Type 0 where
    no_subnets : Grown []
    adds : (cidr : String) {ipam : Ipam B} → Grown ipam → Grown (add_subnet B profile cidr ipam).1
    allocates :
        (cidr : String) {ipam : Ipam B} → Grown ipam → Grown (allocate_ip B profile cidr ipam).1
    gives_gateway :
        (cidr : String) {ipam : Ipam B}
        → Grown ipam
        → Grown (allocate_gateway B profile cidr ipam).1
    releases :
        (cidr : String) (ip : ℕ) {ipam : Ipam B}
        → Grown ipam
        → Grown (release_ip B profile cidr ip ipam).1

  -- A bitmap has a bit for each address between the first and the last, at most.
  abbrev Fits : String → B.Bits → Type 0
  Fits cidr bitmap =
      (ip len : ℕ)
      → parse_cidr cidr ≡ ok (ip, len)
      → 1 ≤ len
      → len ≤ 31
      → B.len bitmap + 2 ≤ block len

  abbrev IsSized : Ipam B → Type 0
  IsSized ipam =
      (cidr : String) (bitmap : B.Bits) → Dict.get cidr ipam ≡ some bitmap → Fits cidr bitmap

  insert-IsSized :
      (cidr : String) (bitmap : B.Bits) (ipam : Ipam B)
      → IsSized ipam
      → Fits cidr bitmap
      → IsSized (Dict.insert cidr bitmap ipam)
  insert-IsSized cidr bitmap ipam sized fits key other h =
      let there = sym (get-insert cidr key bitmap ipam) ∙ h in
      elim (Bool-cases (str_eq cidr key)) [
        | inl e ↦
            let same : cidr ≡ key = (eq_iff cidr key).0 e in
            let it : some bitmap ≡ some other = rw e at there in
            let bits : bitmap ≡ other = cc in
            subst (λ (k : String). Fits k other) same
              (subst (λ (b : B.Bits). Fits cidr b) bits fits)
        | inr e ↦ sized key other (rw e at there)
      ]

  module _ (lawful : IsLawful B) (cidr : String) where
    -- A bit that is written changes no size.
    set-IsSized :
        (ipam : Ipam B) (bitmap : B.Bits) (pos : ℕ) (v : Bool)
        → Dict.get cidr ipam ≡ some bitmap
        → pos < B.len bitmap
        → IsSized ipam
        → IsSized (Dict.insert cidr (B.set bitmap pos v) ipam)
    set-IsSized ipam bitmap pos v known bound sized =
        insert-IsSized cidr (B.set bitmap pos v) ipam sized (λ ip len parsed l1 l2.
          rw (lawful.len-set bitmap pos v bound) (sized cidr bitmap known ip len parsed l1 l2))

    zeros-Fits :
        (total : ℕ)
        → (parse_cidr cidr >>= λ subnet. total_ips profile subnet.1) ≡ ok total
        → Fits cidr (B.zeros total)
    zeros-Fits total e ip len parsed l1 l2 =
        let made : total_ips profile len ≡ ok total = rw parsed at e in
        rw (lawful.len-zeros total) (total_ips-fits profile len total l1 l2 made)

    add_subnet-IsSized : (ipam : Ipam B) → IsSized ipam → IsSized (add_subnet B profile cidr ipam).1
    unfolding add_subnet
    add_subnet-IsSized ipam sized = elim (Bool-cases (Dict.contains_key cidr ipam)) [
      | inl has ↦ rw has sized
      | inr new ↦
          rw new (added (parse_cidr cidr >>= λ subnet. total_ips profile subnet.1) zeros-Fits)
    ]
      where
        added :
            (o : Outcome ℕ)
            → ((total : ℕ) → o ≡ ok total → Fits cidr (B.zeros total))
            → IsSized (insert_subnet B profile cidr ipam o).1
        added (ok total) fits = insert-IsSized cidr (B.zeros total) ipam sized (fits total refl)
        added (err e) fits = sized
        added panic fits = sized

    allocate_ip-IsSized :
        (ipam : Ipam B) → IsSized ipam → IsSized (allocate_ip B profile cidr ipam).1
    unfolding allocate_ip
    allocate_ip-IsSized ipam sized = elim (Option-cases (Dict.get cidr ipam)) [
      | inl missing ↦ rw (missing, allocate_ip) sized
      | inr (bitmap, known) ↦
          rw (known, allocate_ip)
            (elim (Option-cases (B.first_zero bitmap)) [
              | inl full ↦ rw (full, allocate_ip) sized
              | inr (pos, e) ↦
                  rw (e, allocate_ip)
                    (set-IsSized ipam bitmap pos true known (lawful.first_zero-some bitmap pos e).0
                      sized)
            ])
    ]

    allocate_gateway-IsSized :
        (ipam : Ipam B) → IsSized ipam → IsSized (allocate_gateway B profile cidr ipam).1
    unfolding allocate_gateway allocate_specific_ip
    allocate_gateway-IsSized ipam sized = elim (Option-cases (Dict.get cidr ipam)) [
      | inl missing ↦ rw (missing, allocate_specific_ip) sized
      | inr (bitmap, known) ↦
          rw (known, allocate_specific_ip)
            (elim (Bool-cases (leb (B.len bitmap % 2 ^ 32) 0)) [
              | inl out ↦ rw out sized
              | inr inside ↦ rw inside (elim (Bool-cases (B.get bitmap 0)) [
                | inl used ↦ rw used sized
                | inr free ↦
                    rw free (set-IsSized ipam bitmap 0 true known (ground (arith, inside)) sized)
              ])
            ])
    ]

    clear_bit-IsSized :
        (ipam : Ipam B) (pos : ℕ)
        → IsSized ipam
        → IsSized (clear_bit B profile cidr ipam pos (Dict.get cidr ipam)).1
    clear_bit-IsSized ipam pos sized = elim (Option-cases (Dict.get cidr ipam)) [
      | inl missing ↦ rw missing sized
      | inr (bitmap, known) ↦ rw known (elim (Bool-cases (leb (B.len bitmap) pos)) [
        | inl out ↦ rw out sized
        | inr inside ↦ rw inside (elim (Bool-cases (B.get bitmap pos)) [
          | inl used ↦
              rw used (set-IsSized ipam bitmap pos false known (ground (arith, inside)) sized)
          | inr free ↦ rw free sized
        ])
      ])
    ]

    release_ip-IsSized :
        (ipam : Ipam B) (ip : ℕ) → IsSized ipam → IsSized (release_ip B profile cidr ip ipam).1
    unfolding release_ip
    release_ip-IsSized ipam ip sized =
        kept (parse_cidr cidr >>= λ subnet. ip_to_index profile subnet.0 ip subnet.1)
      where
        kept :
            (o : Outcome ℕ)
            → IsSized
                (elim o as (λ _. Answer B (Unit {0})) [
                  | ok pos ↦ clear_bit B profile cidr ipam pos (Dict.get cidr ipam)
                  | err e ↦ (err e, ipam)
                  | panic ↦ (panic, ipam)
                ]).1
        kept (ok pos) = clear_bit-IsSized ipam pos sized
        kept (err e) = sized
        kept panic = sized

  module _ (lawful : IsLawful B) where
    Grown-IsSized : {ipam : Ipam B} → Grown ipam → IsSized ipam
    Grown-IsSized no_subnets = λ cidr bitmap h. let nothing = sym (get-nil cidr) ∙ h in absurd (cc)
    Grown-IsSized (adds cidr {ipam} g) = add_subnet-IsSized lawful cidr ipam (Grown-IsSized g)
    Grown-IsSized (allocates cidr {ipam} g) = allocate_ip-IsSized lawful cidr ipam (Grown-IsSized g)
    Grown-IsSized (gives_gateway cidr {ipam} g) =
        allocate_gateway-IsSized lawful cidr ipam (Grown-IsSized g)
    Grown-IsSized (releases cidr ip {ipam} g) =
        release_ip-IsSized lawful cidr ipam ip (Grown-IsSized g)

    -- In a daemon that found no file of networks, `allocate_ip` takes the lowest free bit of a
    -- subnet with a prefix of 1 to 31 bits, sets it, and answers with its address, which lies
    -- strictly between the first and the last address of the subnet; when no bit is free, it fails
    -- and changes nothing. This holds after any additions of subnets, allocations and releases,
    -- whether these succeeded or not.
    pub allocate_ip-inside :
        (cidr : String) (ip len : ℕ) (ipam : Ipam B) (bitmap : B.Bits)
        → Grown ipam
        → parse_cidr cidr ≡ ok (ip, len)
        → 1 ≤ len
        → len ≤ 31
        → Dict.get cidr ipam ≡ some bitmap
        → TakesLowest B lawful profile cidr ip len ipam bitmap
    allocate_ip-inside cidr ip len ipam bitmap grown parsed l1 l2 known =
        allocate_ip-lowest_free B lawful profile cidr ip len parsed l1 ipam bitmap known
          (Grown-IsSized grown cidr bitmap known ip len parsed l1 l2)
