-- ===== src/Network/Networks/Load.antt =====
-- `Networks::load` of src/core/network/network.rs, and what it finds after a creation. The
-- serializer at the file's type is a parameter.
use rtain.Base.{
  ℕ, ◌+◌, ◌-◌, ◌≤◌, ◌≡◌, refl, ◌∙◌, true, false, [], Option, none, some, str_eq, eq_refl, Outcome,
  ok, ◌>>◌, dropped,
}
use rtain.Base.Dict
use rtain.Base.Dict.{Dict, get-insert}
use rtain.Base.Bytes.{Bytes}
use rtain.Base.Words.{Profile}
use rtain.Cmd.{NetCreateArgs}
use rtain.Network.BitVec.{BitVec, IsLawful}
use rtain.Network.Ipam.{Ipam, parse_cidr, serialize_subnets, deserialize_subnets}
use rtain.Network.Ipam.Address.{base, block}
use rtain.Network.Bridge
use rtain.Network.Bridge.{Network, Netlink, Links}
use rtain.Network.Networks.{Networks, save, create_network}
use rtain.Network.Networks.Creation.{driver-eq, add_subnet-new, gateway-first, create_network-eq}

module _ (B : BitVec) where
  -- What the file holds: the subnets and the networks.
  abbrev pub Stored : Type 0
  Stored = Ipam B × Dict Network

  module _ (deserialize : Bytes → Outcome Stored) (create_dir_all : Outcome (Unit {0})) where
    -- `load`: a file that is not there gives no networks, and its folder is made.
    unfoldable pub load : Option Bytes → Outcome Stored
    load none = create_dir_all >> ok ([], [])
    load (some contents) = deserialize contents

  -- What is written is read back, the bitmaps by the functions that `IPAM` names for them.
  abbrev pub RoundTrips :
      (Ipam B → Dict Network → Outcome Bytes) → (Bytes → Outcome Stored) → Type 0
  RoundTrips serialize deserialize =
      (ipam : Ipam B) (networks : Dict Network) (bytes : Bytes)
      → serialize ipam networks ≡ ok bytes
      → deserialize bytes ≡ ok (deserialize_subnets B (serialize_subnets B ipam), networks)

module _ (B : BitVec) (profile : Profile) (net : Netlink)
    (serialize : Ipam B → Dict Network → Outcome Bytes) (deserialize : Bytes → Outcome (Stored B))
    (create_dir_all : Outcome (Unit {0})) where
  -- Saved and loaded again, the networks are the same, and the bitmaps are what their bytes give.
  load-save :
      (s : Networks B) (bytes : Bytes)
      → serialize s.ipam s.networks ≡ ok bytes
      → net.fs_write s.saved bytes ≡ (ok tt, some bytes)
      → RoundTrips B serialize deserialize
      → load B deserialize create_dir_all (dropped (save B profile net serialize s)).1.saved
        ≡ ok (deserialize_subnets B (serialize_subnets B s.ipam), s.networks)
  unfolding load save
  load-save s bytes e takes trips = rw e (rw takes (trips s.ipam s.networks bytes e))

  module _ (args : NetCreateArgs) (s : Networks B) where
    abbrev created : ℕ → ℕ → Network
    created ip len = record {
      name = args.name;
      cidr = args.subnet;
      gateway = base ip len + 1;
      driver = "bridge";
    }

    -- The bitmaps after the creation: that of the new subnet has its first bit set.
    abbrev taken : ℕ → Ipam B
    taken len =
        Dict.insert args.subnet (B.set (B.zeros (block len - 2)) 0 true)
          (Dict.insert args.subnet (B.zeros (block len - 2)) s.ipam)

    -- A network whose bridge the driver has made, of a new name and a new subnet with a prefix of 1
    -- to 30 bits, is there with the first address of its subnet as its gateway when the daemon loads
    -- the file of the networks again, if the networks could be serialized and the file written.
    pub load-create_network :
        (ip len : ℕ) (network : Network) (links : Links) (bytes : Bytes)
        → IsLawful B
        → RoundTrips B serialize deserialize
        → Dict.contains_key args.name s.networks ≡ false
        → str_eq args.driver "bridge" ≡ true
        → parse_cidr args.subnet ≡ ok (ip, len)
        → 1 ≤ len
        → len ≤ 30
        → Dict.contains_key args.subnet s.ipam ≡ false
        → Bridge.create_network net args.name args.subnet (base ip len + 1) s.links
          ≡ (ok network, links)
        → serialize (taken len) (Dict.insert args.name (created ip len) s.networks) ≡ ok bytes
        → net.fs_write s.saved bytes ≡ (ok tt, some bytes)
        → (stored : Stored B) × (load B deserialize create_dir_all
              (create_network B profile net serialize args s).1.saved
            ≡ ok stored)
          × (Dict.get args.name stored.1 ≡ some (created ip len))
    load-create_network ip len network links bytes lawful trips name bridge parsed l1 l2 new driver
          written takes =
        let subnet = add_subnet-new B profile lawful args.subnet s.ipam ip len parsed l1 l2 new in
        let gateway = gateway-first B profile lawful args.subnet s.ipam ip len parsed l1 l2 in
        let made =
          driver-eq net args.name args.subnet (base ip len + 1) s.links links network driver in
        rw (create_network-eq B profile net serialize args s name bridge) (
          rw subnet (
            rw gateway (
              rw driver (
                (
                  deserialize_subnets B (serialize_subnets B (taken len)),
                  Dict.insert args.name (created ip len) s.networks,
                ),
                rw made (load-save _ bytes written takes trips),
                get-insert args.name args.name (created ip len) s.networks
                    ∙ rw (eq_refl args.name) refl,
              ))))
