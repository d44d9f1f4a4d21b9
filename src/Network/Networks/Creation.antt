-- ===== src/Network/Networks/Creation.antt =====
-- What a request for a network leaves behind.
use mathlib.Core.Path.{subst}
use native.Mathlib.Nat.{pow-suc}
use rtain.Base.{
  ℕ, suc, ◌+◌, ◌-◌, ◌*◌, ◌%◌, ◌^◌, ◌≤◌, ◌≡◌, refl, ap, ◌∙◌, String, true, false, [], ◌∷◌, ◌++◌,
  some, arith, str_eq, eq_refl, leb, Outcome, ok, err, panic, Option, dropped,
}
use rtain.Base.Dict
use rtain.Base.Dict.{Dict, get-insert}
use rtain.Base.Bytes.{Bytes}
use rtain.Base.Words.{Profile, pow2_u32, sub_u32, add_u32}
use rtain.Msg.{ok_content, error}
use rtain.Cmd.{NetCreateArgs}
use rtain.Network.BitVec.{BitVec, IsLawful}
use rtain.Network.Ipam.{
  Ipam, Answer, parse_cidr, total_ips, add_subnet, allocate_specific_ip, allocate_gateway,
}
use rtain.Network.Ipam.Address.{
  block, base, pow_pos, block_half, parse_cidr-in_range, calculate_ip-eq,
}
use rtain.Network.Ipam.Subnets.{
  allocate_gateway-keeps, release_ip-keeps, add_subnet-known, add_subnet-has,
}
use rtain.Network.Bridge
use rtain.Network.Bridge.{Network, Netlink, Links}
use rtain.Base.Text.{◌⧺◌}
use rtain.Network.Networks.{Networks, after_subnet, reply, store, save, create_network}

-- The network that the driver makes is the one that it was asked for.
pub driver-eq :
    (net : Netlink) (name cidr : String) (gateway : ℕ) (links links' : Links) (network : Network)
    → Bridge.create_network net name cidr gateway links ≡ (ok network, links')
    → network ≡ record { name = name; cidr = cidr; gateway = gateway; driver = "bridge" }
unfolding Bridge.create_network
driver-eq net name cidr gateway links links' network e = ground arith

-- A subnet with a prefix of at most 30 bits has two addresses besides its first and last.
block_ge : (len : ℕ) → len ≤ 30 → 4 ≤ block len
block_ge len h =
    let bits : 32 - len ≡ suc (suc (30 - len)) = omega arith in
    let whole : block len ≡ 2 ^ (30 - len) * 2 * 2 =
      ap (λ (n : ℕ). 2 ^ n) bits
      ∙ pow-suc 2 (suc (30 - len))
      ∙ ap (λ (n : ℕ). n * 2) (pow-suc 2 (30 - len)) in
    omega (arith, whole, pow_pos (30 - len))

total_ips-eq :
    (profile : Profile) (len : ℕ) → 1 ≤ len → len ≤ 30 → total_ips profile len ≡ ok (block len - 2)
unfolding total_ips pow2_u32 sub_u32
total_ips-eq profile len l1 l2 = ground (arith, block_ge len l2)

one_more : (profile : Profile) → add_u32 profile 0 1 ≡ ok 1
unfolding add_u32
one_more profile = refl

module _ (B : BitVec) (profile : Profile) (lawful : IsLawful B) where
  pub add_subnet-new :
      (cidr : String) (ipam : Ipam B) (ip len : ℕ)
      → parse_cidr cidr ≡ ok (ip, len)
      → 1 ≤ len
      → len ≤ 30
      → Dict.contains_key cidr ipam ≡ false
      → add_subnet B profile cidr ipam ≡ (ok tt, Dict.insert cidr (B.zeros (block len - 2)) ipam)
  unfolding add_subnet
  add_subnet-new cidr ipam ip len parsed l1 l2 new =
      rw (new, parsed) (rw (total_ips-eq profile len l1 l2) refl)

  pub gateway-first :
      (cidr : String) (ipam : Ipam B) (ip len : ℕ)
      → parse_cidr cidr ≡ ok (ip, len)
      → 1 ≤ len
      → len ≤ 30
      → allocate_gateway B profile cidr (Dict.insert cidr (B.zeros (block len - 2)) ipam) ≡ (
        ok (base ip len + 1),
        Dict.insert cidr
            (B.set (B.zeros (block len - 2)) 0 true)
            (Dict.insert cidr (B.zeros (block len - 2)) ipam),
      )
  unfolding allocate_gateway allocate_specific_ip
  gateway-first cidr ipam ip len parsed l1 l2 =
      let total = block len - 2 in
      let room = block_ge len l2 in
      let here : Dict.get cidr (Dict.insert cidr (B.zeros total) ipam) ≡ some (B.zeros total) =
        get-insert cidr cidr (B.zeros total) ipam ∙ rw (eq_refl cidr) refl in
      let size = lawful.len-zeros total in
      let range = parse_cidr-in_range cidr ip len parsed in
      let half = block_half len l1 range.1 in
      let free = lawful.get-zeros total 0 (omega arith) in
      let address = calculate_ip-eq profile cidr ip len parsed 1 l1 (omega arith) in
      let in_range : leb (total % 2 ^ 32) 0 ≡ false = ground arith in
      let one : add_u32 profile 0 1 ≡ ok 1 = one_more profile in
      rw (here, allocate_specific_ip) (rw (size, free) (rw in_range (rw (one, address) refl)))

module _ (B : BitVec) (profile : Profile) (net : Netlink)
    (serialize : Ipam B → Dict Network → Outcome Bytes) (s : Networks B) where
  -- `save` writes the file alone, whatever comes of it.
  pub save-keeps :
      ((dropped (save B profile net serialize s)).1.networks ≡ s.networks)
      × ((dropped (save B profile net serialize s)).1.sent ≡ s.sent)
  unfolding save
  save-keeps = kept (serialize s.ipam s.networks)
    where
      written :
          (r : Outcome (Unit {0}) × Option Bytes)
          → ((dropped (r.0, record s { saved = r.1 })).1.networks ≡ s.networks)
            × ((dropped (r.0, record s { saved = r.1 })).1.sent ≡ s.sent)
      written (ok _, saved) = (refl, refl)
      written (err e, saved) = (refl, refl)
      written (panic, saved) = (refl, refl)

      kept :
          (o : Outcome Bytes)
          → ((dropped (store B profile net serialize o s)).1.networks ≡ s.networks)
            × ((dropped (store B profile net serialize o s)).1.sent ≡ s.sent)
      kept (ok contents) = written (net.fs_write s.saved contents)
      kept (err e) = (refl, refl)
      kept panic = (refl, refl)

module _ (B : BitVec) (profile : Profile) (net : Netlink)
    (serialize : Ipam B → Dict Network → Outcome Bytes) (args : NetCreateArgs) (s : Networks B)
    (new_name : Dict.contains_key args.name s.networks ≡ false)
    (is_bridge : str_eq args.driver "bridge" ≡ true) where
  -- A request for a subnet in use is refused.
  known_subnet :
      Dict.contains_key args.subnet s.ipam ≡ true
      → create_network B profile net serialize args s ≡ (
        ok tt,
        reply B profile net serialize
            (error ("Failed to create network, add subnet fail: " ⧺ "Subnet already exists"))
            s,
      )
  unfolding create_network
  known_subnet has =
      rw (new_name, is_bridge) (rw (add_subnet-known B profile args.subnet s.ipam has) refl)

module _ (B : BitVec) (profile : Profile) (net : Netlink)
    (serialize : Ipam B → Dict Network → Outcome Bytes) (args : NetCreateArgs) (s : Networks B)
    (new_name : Dict.contains_key args.name s.networks ≡ false)
    (is_bridge : str_eq args.driver "bridge" ≡ true) where
  pub create_network-eq :
      create_network B profile net serialize args s
      ≡ after_subnet B profile net serialize args (add_subnet B profile args.subnet s.ipam) s
  unfolding create_network
  create_network-eq = rw (new_name, is_bridge) refl

  -- A network with a new name and a new subnet, of a prefix of 1 to 30 bits, is recorded when the
  -- driver makes its bridge: its gateway is the first address of the subnet, and the client gets a
  -- confirmation.
  pub create_network-gateway :
      (ip len : ℕ) (network : Network) (links : Links)
      → IsLawful B
      → parse_cidr args.subnet ≡ ok (ip, len)
      → 1 ≤ len
      → len ≤ 30
      → Dict.contains_key args.subnet s.ipam ≡ false
      → Bridge.create_network net args.name args.subnet (base ip len + 1) s.links
        ≡ (ok network, links)
      → (Dict.get args.name (create_network B profile net serialize args s).1.networks
          ≡ some (record {
            name = args.name;
            cidr = args.subnet;
            gateway = base ip len + 1;
            driver = "bridge";
          }))
        × ((create_network B profile net serialize args s).1.sent
            ≡ s.sent ++ ok_content ("Network " ⧺ args.name ⧺ " created") ∷ [])
  create_network-gateway ip len network links lawful parsed l1 l2 new driver =
      let subnet = add_subnet-new B profile lawful args.subnet s.ipam ip len parsed l1 l2 new in
      let gateway = gateway-first B profile lawful args.subnet s.ipam ip len parsed l1 l2 in
      let made =
        driver-eq net args.name args.subnet (base ip len + 1) s.links links network driver in
      rw (create_network-eq) (
        rw subnet (
          rw gateway (
            rw driver (
              rw ((save-keeps B profile net serialize _).0) (
                  rw made
                    (get-insert args.name args.name _ s.networks ∙ rw (eq_refl args.name) refl)),
              (save-keeps B profile net serialize _).1,
            ))))

  -- A network for a bridge, of a new name, that has got its subnet and its gateway and that the
  -- driver cannot make leaves its subnet in use: the same request fails from then on, before the
  -- driver is asked.
  pub create_network-retry :
      (gateway : ℕ) (ipam ipam' : Ipam B) (e : String) (links : Links)
      → add_subnet B profile args.subnet s.ipam ≡ (ok tt, ipam)
      → allocate_gateway B profile args.subnet ipam ≡ (ok gateway, ipam')
      → Bridge.create_network net args.name args.subnet gateway s.links ≡ (err e, links)
      → (s' : Networks B) × (create_network B profile net serialize args s ≡ (ok tt, s'))
        × (create_network B profile net serialize args s' ≡ (
          ok tt,
          reply B profile net serialize
              (error ("Failed to create network, add subnet fail: " ⧺ "Subnet already exists"))
              s',
        ))
  create_network-retry gateway ipam ipam' e links subnet given driver =
      let has = add_subnet-has B profile args.subnet s.ipam ipam subnet in
      let has' = allocate_gateway-keeps B profile args.subnet args.subnet ipam has in
      let kept =
        subst (λ (answer : Answer B ℕ). Dict.contains_key args.subnet answer.1 ≡ true) given has' in
      let after = release_ip-keeps B profile args.subnet args.subnet ipam' kept gateway in
      rw (create_network-eq) (
        rw subnet (
          rw given (
            rw driver
              (_, refl, known_subnet B profile net serialize args _ new_name is_bridge after))))
