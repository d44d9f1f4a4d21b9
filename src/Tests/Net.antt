-- ===== src/Tests/Net.antt =====
-- The theorems about networks at a subnet with 254 addresses.
use rtain.Base.{
  ℕ, zero, suc, ◌%◌, ◌^◌, ◌≤◌, ◌+◌, ◌-◌, ◌<◌, ◌≡◌, ◌⊎◌, refl, ap, ℕ_discrete, String, List, [], ◌∷◌,
  none, some, Bool, true, false, Outcome, ok, err, panic, arith,
}
use rtain.Base.Dict
use rtain.Base.Dict.{Dict}
use rtain.Base.Bytes.{Bytes, Codec}
use rtain.Base.Text.{digits, octet, split, split_once, parse_unsigned, parse_ipv4}
use rtain.Base.Words.{Profile, debug, release, pow2_u32, sub_u32, shl1_u32, add_u32}
use rtain.Cmd.{NetCreateArgs}
use rtain.Msg.{error}
use rtain.Network.Ipam.{
  Ipam, parse_cidr, calculate_ip, ip_to_index, total_ips, add_subnet, allocate_ip,
  allocate_specific_ip, allocate_gateway, release_ip,
}
use rtain.Network.Ipam.{serialize_subnets, deserialize_subnets}
use rtain.Network.Ipam.Reload.{allocate_ip-reloaded}
use rtain.Network.Ipam.Sized.{no_subnets, adds, gives_gateway, Grown, allocate_ip-inside}
use rtain.Network.Ipam.Address.{block, base, calculate_ip-outcome, ip_to_index_panics}
use rtain.Network.Ipam.Allocation.{TakesLowest, release-allocate}
use rtain.Network.Bridge
use rtain.Network.Bridge.{Network, Netlink, Links}
use rtain.Base.Text.{◌⧺◌}
use rtain.Network.Networks.{Networks, reply, create_network}
use rtain.Network.Networks.Creation.{create_network-retry}
use rtain.Network.Networks.Load.{Stored, load, RoundTrips, load-create_network}
use rtain.Tests.Samples.{string_discrete, table_codec, table_codec-IsLawful}
use rtain.Tests.Bits
use rtain.Tests.Bits.{bits, bits-IsLawful}

abbrev cidr : String
cidr = "10.0.0.0/29"

parsed : parse_cidr cidr ≡ ok (167772160, 29)
unfolding parse_cidr parse_ipv4 parse_unsigned split split_once digits octet
parsed = refl

calculate_ip-outcome_example :
    ((1 ≤ 29)
      × (base 167772160 29 + 3 < 2 ^ 32)
      × ((profile : Profile) → calculate_ip profile cidr 3 ≡ ok (base 167772160 29 + 3)))
    ⊎ ((◌≡◌ {A = ℕ} 29 0)
        × (calculate_ip debug cidr 3 ≡ panic)
        × (calculate_ip release cidr 3 ≡ ok ((167772160 + 3) % 2 ^ 32)))
calculate_ip-outcome_example = calculate_ip-outcome cidr 167772160 29 3 parsed (omega arith)

-- The subnet is written with the address of a host.
ip_to_index_panics_example : ip_to_index debug 167772165 167772161 29 ≡ panic
ip_to_index_panics_example =
    ip_to_index_panics 167772165 167772161 29 (omega arith) refl (omega arith)

-- Six bits, the first two of which are taken.
abbrev bitmap : List Bool
bitmap = true ∷ true ∷ false ∷ false ∷ false ∷ false ∷ []

abbrev ipam : Ipam bits
ipam = (cidr, bitmap) ∷ []

known : Dict.get cidr ipam ≡ some bitmap
unfolding Dict.get
known = refl

-- A subnet of which the first address was given to the gateway.
abbrev one_given : Ipam bits
one_given = (allocate_gateway bits debug cidr (add_subnet bits debug cidr []).1).1

one_given-Grown : Grown bits debug one_given
one_given-Grown = gives_gateway cidr (adds cidr no_subnets)

known_given : Dict.get cidr one_given ≡ some (Bits.set (Bits.zeros 6) 0 true)
unfolding allocate_gateway allocate_specific_ip add_subnet total_ips pow2_u32 sub_u32 parse_cidr
    parse_ipv4 parse_unsigned split split_once digits octet Dict.contains_key Dict.get Dict.insert
    Bits.get Bits.zeros
known_given = refl

allocate_ip-inside_example :
    TakesLowest bits bits-IsLawful debug cidr 167772160 29 one_given
      (Bits.set (Bits.zeros 6) 0 true)
allocate_ip-inside_example =
    allocate_ip-inside bits debug bits-IsLawful cidr 167772160 29 one_given
      (Bits.set (Bits.zeros 6) 0 true) one_given-Grown parsed (omega arith) (omega arith)
      known_given

third_free : Bits.first_zero bitmap ≡ some 2
unfolding Bits.first_zero
third_free = refl

release-allocate_example :
    (freed : List Bool) × ((j : ℕ) → Bits.get freed j ≡ Bits.get bitmap j)
    × (bits.len freed ≡ 6)
    × (release_ip bits debug cidr (base 167772160 29 + (2 + 1)) (allocate_ip bits debug cidr ipam).1
        ≡ (ok tt, Dict.insert cidr freed (Dict.insert cidr (Bits.set bitmap 2 true) ipam)))
release-allocate_example =
    release-allocate bits bits-IsLawful debug cidr 167772160 29 parsed (omega arith) ipam bitmap
      known (omega arith) 2 refl third_free

abbrev done : Outcome (Unit {0})
done = ok tt

abbrev pub netlink : Netlink
netlink = record {
  add_bridge = λ name. done;
  del_link = λ name. done;
  add_address = λ name ip len. done;
  set_up = λ name. done;
  iptables = λ name cidr. done;
  fs_write = λ old contents. (ok tt, some contents);
}

-- A host that has no program `iptables`.
abbrev no_iptables : Netlink
no_iptables = record netlink { iptables = λ name cidr. err "iptables" }

abbrev pub serialize : Ipam bits → Dict Network → Outcome Bytes
serialize state networks = ok []

abbrev args : NetCreateArgs
args = record { subnet = cidr; driver = "bridge"; name = "br1" }

abbrev pub no_networks : Networks bits
no_networks = record { ipam = []; networks = []; links = []; saved = none; sent = [] }

abbrev made : Network
made = record { name = "br1"; cidr = cidr; gateway = 167772161; driver = "bridge" }

no_name : Dict.contains_key "br1" no_networks.networks ≡ false
unfolding Dict.contains_key Dict.get
no_name = refl

no_subnet : Dict.contains_key cidr no_networks.ipam ≡ false
unfolding Dict.contains_key Dict.get
no_subnet = refl

driver_makes :
    Bridge.create_network netlink "br1" cidr (base 167772160 29 + 1) [] ≡ (ok made, "br1" ∷ [])
unfolding Bridge.create_network parse_unsigned split digits
driver_makes = refl

subnet_added : add_subnet bits debug cidr [] ≡ (ok tt, (cidr, Bits.zeros 6) ∷ [])
unfolding add_subnet total_ips pow2_u32 sub_u32 parse_cidr parse_ipv4 parse_unsigned split
    split_once digits octet Dict.contains_key Dict.get Dict.insert
subnet_added = refl

gateway_given :
    allocate_gateway bits debug cidr ((cidr, Bits.zeros 6) ∷ [])
    ≡ (ok 167772161, (cidr, Bits.set (Bits.zeros 6) 0 true) ∷ [])
unfolding allocate_gateway allocate_specific_ip calculate_ip shl1_u32 add_u32 parse_cidr parse_ipv4
    parse_unsigned split split_once digits octet Dict.get Dict.insert Bits.zeros Bits.get Bits.set
gateway_given = refl

driver_fails : Bridge.create_network no_iptables "br1" cidr 167772161 [] ≡ (err "iptables", [])
unfolding Bridge.create_network Bridge.delete_bridge parse_unsigned split digits
driver_fails = refl

create_network-retry_example :
    (s' : Networks bits) × (create_network bits debug no_iptables serialize args no_networks
      ≡ (ok tt, s'))
    × (create_network bits debug no_iptables serialize args s' ≡ (
      ok tt,
      reply bits debug no_iptables serialize
          (error ("Failed to create network, add subnet fail: " ⧺ "Subnet already exists"))
          s',
    ))
create_network-retry_example =
    create_network-retry bits debug no_iptables serialize args no_networks no_name refl 167772161
      ((cidr, Bits.zeros 6) ∷ []) ((cidr, Bits.set (Bits.zeros 6) 0 true) ∷ []) "iptables" []
      subnet_added gateway_given driver_fails

-- The same subnet with all bits set.
abbrev full_bitmap : List Bool
full_bitmap = true ∷ true ∷ true ∷ true ∷ true ∷ true ∷ []

abbrev full_ipam : Ipam bits
full_ipam = (cidr, full_bitmap) ∷ []

known_full : Dict.get cidr full_ipam ≡ some full_bitmap
unfolding Dict.get
known_full = refl

all_set : (j : ℕ) → j < 6 → Bits.get full_bitmap j ≡ true
unfolding Bits.get
all_set zero h = refl
all_set (suc zero) h = refl
all_set (suc (suc zero)) h = refl
all_set (suc (suc (suc zero))) h = refl
all_set (suc (suc (suc (suc zero)))) h = refl
all_set (suc (suc (suc (suc (suc zero))))) h = refl
all_set (suc (suc (suc (suc (suc (suc j)))))) h = absurd (omega arith)

-- The two bits that fill the byte are clear.
filled : Bits.get (bits.from_bytes (bits.to_bytes full_bitmap)) 6 ≡ false
unfolding Bits.get Bits.from_bytes Bits.to_bytes Bits.pad Bits.zeros
filled = refl

allocate_ip-reloaded_example :
    (allocate_ip bits debug cidr full_ipam ≡ (err "No available IP", full_ipam))
    × ((allocate_ip bits debug cidr (deserialize_subnets bits (serialize_subnets bits full_ipam))).0
        ≡ ok (base 167772160 29 + block 29 - 1))
allocate_ip-reloaded_example =
    allocate_ip-reloaded bits bits-IsLawful debug cidr 167772160 29 parsed (omega arith)
      (omega arith) full_ipam full_bitmap known_full (omega arith) all_set filled

-- A file of the networks, with the one state that is written here.
unfoldable stored_discrete : Discrete (Stored bits)
unfolding string_discrete ℕ_discrete
stored_discrete = hlevel (ℕ_discrete, string_discrete)

abbrev written : Stored bits
written = (
  Dict.insert cidr (Bits.set (Bits.zeros 6) 0 true) (Dict.insert cidr (Bits.zeros 6) []),
  Dict.insert "br1" made [],
)

abbrev file_codec : Codec (Stored bits)
file_codec = table_codec stored_discrete (written ∷ [])

abbrev save_file : Ipam bits → Dict Network → Outcome Bytes
save_file state networks = file_codec.serialize (state, networks)

abbrev reread : Outcome (Stored bits) → Outcome (Stored bits)
reread (ok (state, networks)) =
    ok (deserialize_subnets bits (serialize_subnets bits state), networks)
reread (err e) = err e
reread panic = panic

abbrev load_file : Bytes → Outcome (Stored bits)
load_file bytes = reread (file_codec.deserialize bytes)

file_trips : RoundTrips bits save_file load_file
file_trips state networks bytes e =
    ap reread
      ((table_codec-IsLawful stored_discrete (written ∷ [])).round_trip (state, networks) bytes e)

file_written : save_file written.0 written.1 ≡ ok (0 ∷ [])
unfolding table_codec stored_discrete Dict.insert Bits.zeros Bits.set
file_written = refl

load-create_network_example :
    (stored : Stored bits) × (load bits load_file done
        (create_network bits debug netlink save_file args no_networks).1.saved
      ≡ ok stored)
    × (Dict.get "br1" stored.1 ≡ some made)
load-create_network_example =
    load-create_network bits debug netlink save_file load_file done args no_networks 167772160 29
      made ("br1" ∷ []) (0 ∷ []) bits-IsLawful file_trips no_name refl parsed (omega arith)
      (omega arith) no_subnet driver_makes file_written refl
