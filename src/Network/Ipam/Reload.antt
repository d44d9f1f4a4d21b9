-- ===== src/Network/Ipam/Reload.antt =====
-- What is left of the bitmaps when they have been stored and loaded again.
use native.Mathlib.Nat.{pow-suc}
use rtain.Base.{
  ℕ, suc, ◌+◌, ◌-◌, ◌*◌, ◌%◌, ◌^◌, ◌≤◌, ◌<◌, ◌≡◌, refl, ap, ◌∙◌, String, [], ◌∷◌, none, some, true,
  false, str_eq, Bool-cases, Option-cases, inl, inr, ok, err, arith, dec_lt,
}
use rtain.Base.Dict
use mathlib.Core.Option
use rtain.Network.BitVec.{BitVec, IsLawful}
use rtain.Base.Words.{Profile, add_u32}
use rtain.Network.Ipam.Address.{block, base, block_half, parse_cidr-in_range, calculate_ip-eq}
use rtain.Network.Ipam.Allocation.{add_u32-small, allocate_ip-full}
use rtain.Network.Ipam.{parse_cidr, allocate_ip}
use rtain.Network.Ipam.{Ipam, serialize_subnets, deserialize_subnets}

-- A subnet with a prefix of at most 30 bits has a multiple of four addresses.
quarters : (len : ℕ) → len ≤ 30 → block len ≡ 4 * (2 ^ (30 - len))
quarters len h =
    let bits : 32 - len ≡ suc (suc (30 - len)) = omega arith in
    rw bits (omega (arith, pow-suc 2 (30 - len), pow-suc 2 (suc (30 - len))))

module _ (B : BitVec) where
  abbrev reloaded : B.Bits → B.Bits
  reloaded bitmap = B.from_bytes (B.to_bytes bitmap)

  get-reload_subnets :
      (cidr : String) (ipam : Ipam B)
      → Dict.get cidr (deserialize_subnets B (serialize_subnets B ipam))
        ≡ Option.map reloaded (Dict.get cidr ipam)
  unfolding serialize_subnets deserialize_subnets Dict.get
  get-reload_subnets cidr [] = refl
  get-reload_subnets cidr ((key, bitmap) ∷ ipam) = elim (Bool-cases (str_eq key cidr)) [
    | inl e ↦ rw e refl
    | inr e ↦ rw e (get-reload_subnets cidr ipam)
  ]

  module _ (lawful : IsLawful B) (profile : Profile) (cidr : String) (ip len : ℕ)
      (parsed : parse_cidr cidr ≡ ok (ip, len)) (some_prefix : 1 ≤ len) (room : len ≤ 30)
      (ipam : Ipam B) (bitmap : B.Bits) (known : Dict.get cidr ipam ≡ some bitmap)
      (whole : B.len bitmap + 2 ≡ block len) where
    -- The first free bit of a full bitmap that was stored and loaded again.
    first_zero-reloaded :
        ((j : ℕ) → j < B.len bitmap → B.get bitmap j ≡ true)
        → B.get (reloaded bitmap) (B.len bitmap) ≡ false
        → B.first_zero (reloaded bitmap) ≡ some (B.len bitmap)
    first_zero-reloaded full clear =
        let size = B.len bitmap in
        let more : size < B.len (reloaded bitmap) =
          omega (arith, lawful.len-reload bitmap, whole, quarters len room) in
        elim (Option-cases (B.first_zero (reloaded bitmap))) [
          | inl e ↦ let used = lawful.first_zero-none (reloaded bitmap) e size more in absurd (cc)
          | inr (pos, e) ↦
              let (bound, free, lower) = lawful.first_zero-some (reloaded bitmap) pos e in
              e
              ∙ ap some (elim (dec_lt pos size) [
                | yes below ↦
                    let used = lawful.get-reload bitmap pos below ∙ full pos below in absurd (cc)
                | no at ↦ elim (dec_lt size pos) [
                  | yes above ↦ let used = lower size above in absurd (cc)
                  | no not_above ↦ omega arith
                ]
              ])
        ]

    -- Of a full bitmap no bit is free.
    no_first : ((j : ℕ) → j < B.len bitmap → B.get bitmap j ≡ true) → B.first_zero bitmap ≡ none
    no_first full = elim (Option-cases (B.first_zero bitmap)) [
      | inl e ↦ e
      | inr (pos, e) ↦
          let (bound, free, _) = lawful.first_zero-some bitmap pos e in
          let used = full pos bound in absurd (cc)
    ]

    -- A full subnet, of a prefix of 1 to 30 bits and with a bitmap as `add_subnet` makes it, has
    -- free bits again when the networks have been stored and loaded, if the bits that fill its last
    -- byte are clear: `allocate_ip`, which fails before, hands out the last address of the subnet,
    -- the one for broadcasts.
    pub allocate_ip-reloaded :
        ((j : ℕ) → j < B.len bitmap → B.get bitmap j ≡ true)
        → B.get (reloaded bitmap) (B.len bitmap) ≡ false
        → (allocate_ip B profile cidr ipam ≡ (err "No available IP", ipam))
          × ((allocate_ip B profile cidr (deserialize_subnets B (serialize_subnets B ipam))).0
              ≡ ok (base ip len + block len - 1))
    unfolding allocate_ip
    allocate_ip-reloaded full clear =
        let size = B.len bitmap in
        let there : Dict.get cidr (deserialize_subnets B (serialize_subnets B ipam))
            ≡ some (reloaded bitmap) =
          get-reload_subnets cidr ipam ∙ ap (Option.map reloaded) known in
        let e = first_zero-reloaded full clear in
        let half = block_half len some_prefix (parse_cidr-in_range cidr ip len parsed).1 in
        let next : add_u32 profile (size % 2 ^ 32) 1 ≡ ok (size + 1) =
          add_u32-small profile size 1 (omega arith) in
        let address =
          calculate_ip-eq profile cidr ip len parsed (size + 1) some_prefix (omega arith) in
        let last : base ip len + (size + 1) ≡ base ip len + block len - 1 = omega arith in
        (
          allocate_ip-full B lawful profile cidr ip len parsed some_prefix ipam bitmap known
              (omega arith) (no_first full),
          rw (there, allocate_ip) (rw (e, allocate_ip) (rw (next, address) (ap ok last))),
        )
