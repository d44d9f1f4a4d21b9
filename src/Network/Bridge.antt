-- ===== src/Network/Bridge.antt =====
-- `BridgeDriver::create_network` and `delete_network` of src/core/network/bridge.rs. What netlink
-- and the program `iptables` answer is a parameter; the links that exist are the state.
use rtain.Base.{
  ℕ, ◌^◌, String, not, List, [], ◌∷◌, ◌++◌, Option, none, some, keep, str_eq, Outcome, ok, err,
  panic, ◌>>=◌, ok_or,
}
use rtain.Base.Bytes.{Bytes}
use rtain.Base.Text.{codes, split, parse_unsigned}

pub record Network : Type 0 where
  pub name : String
  pub cidr : String
  pub gateway : ℕ
  pub driver : String

-- The answers to `create_bridge`, `delete_bridge`, `set_bridge_ip`, `set_link_up` and
-- `set_basic_iptables`, and what `std::fs::write` does: from the file before, if there is one, and
-- the contents, its result and the file after.
pub record Netlink : Type 0 where
  pub add_bridge : String → Outcome (Unit {0})
  pub del_link : String → Outcome (Unit {0})
  pub add_address : String → ℕ → ℕ → Outcome (Unit {0})
  pub set_up : String → Outcome (Unit {0})
  pub iptables : String → String → Outcome (Unit {0})
  pub fs_write : Option Bytes → Bytes → Outcome (Unit {0}) × Option Bytes

-- The names of the bridges.
abbrev pub Links : Type 0
Links = List String

abbrev second : List (List ℕ) → Option (List ℕ)
second [] = none
second (a ∷ []) = none
second (a ∷ b ∷ parts) = some b

module _ (net : Netlink) where
  abbrev without : String → Links → Links
  without name = keep (λ link. not (str_eq link name))

  abbrev if_deleted : String → Outcome (Unit {0}) → Links → Links
  if_deleted name (ok _) links = without name links
  if_deleted name (err e) links = links
  if_deleted name panic links = links

  unfoldable pub delete_bridge : String → Links → Outcome (Unit {0}) × Links
  delete_bridge name links = (net.del_link name, if_deleted name (net.del_link name) links)

  -- What follows a step: after an error the bridge is deleted.
  abbrev pub or_delete :
      {A : Type 0}
      → String
      → (Links → Outcome A × Links)
      → Outcome (Unit {0})
      → Links
      → Outcome A × Links
  or_delete name next (ok _) links = next links
  or_delete name next (err e) links = (err e, (delete_bridge name links).1)
  or_delete name next panic links = (panic, links)

  abbrev pub configure : String → String → ℕ → Outcome ℕ → Links → Outcome Network × Links
  configure name cidr gateway (ok prefix_len) links =
      or_delete name
        (or_delete name
          (or_delete name
            (λ links. (
              ok (record { name = name; cidr = cidr; gateway = gateway; driver = "bridge" }),
              links,
            ))
            (net.iptables name cidr))
          (net.set_up name))
        (net.add_address name gateway prefix_len) links
  configure name cidr gateway (err e) links = (err e, links)
  configure name cidr gateway panic links = (panic, links)

  -- The length of the prefix as the driver reads it: a `u8`.
  abbrev pub prefix_of : String → Outcome ℕ
  prefix_of cidr =
      ok_or (second (split b'/' (codes cidr))) "Invalid CIDR" >>= parse_unsigned (2 ^ 8)

  abbrev pub with_bridge :
      String → String → ℕ → Outcome (Unit {0}) → Links → Outcome Network × Links
  with_bridge name cidr gateway (ok _) links =
      configure name cidr gateway (prefix_of cidr) (links ++ name ∷ [])
  with_bridge name cidr gateway (err e) links = (err e, links)
  with_bridge name cidr gateway panic links = (panic, links)

  unfoldable pub create_network : String → String → ℕ → Links → Outcome Network × Links
  create_network name cidr gateway links = with_bridge name cidr gateway (net.add_bridge name) links

  unfoldable pub delete_network : Network → Links → Outcome (Unit {0}) × Links
  delete_network network links = delete_bridge network.name links
