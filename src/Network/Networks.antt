-- ===== src/Network/Networks.antt =====
-- `Networks` and the handler `create_network` of src/core/network/network.rs.
pub mod Creation
pub mod Load
use rtain.Base.Text.{◌⧺◌}
use rtain.Base.{
  ℕ, String, Bool, true, false, not, List, [], ◌∷◌, ◌++◌, Option, none, some, str_eq, if◌then◌else◌,
  Outcome, ok, err, panic, dropped,
}
use rtain.Base.Dict
use rtain.Base.Dict.{Dict}
use rtain.Base.Words.{Profile}
use rtain.Base.Bytes.{Bytes}
use rtain.Msg.{Msg, ok_content, error}
use rtain.Cmd.{NetCreateArgs}
use rtain.Network.BitVec.{BitVec}
use rtain.Network.Ipam.{Ipam, Answer, add_subnet, allocate_gateway, release_ip}
use rtain.Network.Bridge
use rtain.Network.Bridge.{Network, Netlink, Links}

-- The networks and what the handler works on: the links, the file that `save` writes, and the
-- messages to the client.
pub record Networks (B : BitVec) : Type 0 where
  pub ipam : Ipam B
  pub networks : Dict Network
  pub links : Links
  pub saved : Option Bytes
  pub sent : List Msg

module _ (B : BitVec) (profile : Profile) (net : Netlink)
    (serialize : Ipam B → Dict Network → Outcome Bytes) where
  abbrev Handled : Type 0
  Handled = Outcome (Unit {0}) × Networks B

  abbrev pub reply : Msg → Networks B → Networks B
  reply msg s = record s { sent = s.sent ++ msg ∷ [] }

  abbrev pub store : Outcome Bytes → Networks B → Outcome (Unit {0}) × Networks B
  store (ok contents) s =
      let (r, saved) = net.fs_write s.saved contents in (r, record s { saved = saved })
  store (err e) s = (err e, s)
  store panic s = (panic, s)

  unfoldable pub save : Networks B → Outcome (Unit {0}) × Networks B
  save s = store (serialize s.ipam s.networks) s

  -- What follows the driver; the result of `save` is dropped. After the driver's error the gateway's
  -- bit is cleared; the subnet stays.
  abbrev pub after_driver :
      NetCreateArgs → ℕ → Outcome Network × Links → Networks B → Outcome (Unit {0}) × Networks B
  after_driver args gateway (ok network, links) s =
      let told = reply (ok_content ("Network " ⧺ args.name ⧺ " created")) s in
      dropped
        (save (record told { links = links; networks = Dict.insert args.name network s.networks }))
  after_driver args gateway (err e, links) s =
      let told = reply (error ("Failed to create network, driver error: " ⧺ e)) s in
      (
        ok tt,
        record told { links = links; ipam = (release_ip B profile args.subnet gateway s.ipam).1 },
      )
  after_driver args gateway (panic, links) s = (panic, record s { links = links })

  abbrev pub after_gateway :
      NetCreateArgs → Answer B ℕ → Networks B → Outcome (Unit {0}) × Networks B
  after_gateway args (ok gateway, ipam) s =
      after_driver args gateway (Bridge.create_network net args.name args.subnet gateway s.links)
        (record s { ipam = ipam })
  after_gateway args (err e, ipam) s = (
    ok tt,
    reply (error ("Failed to create network, allocate gateway fail: " ⧺ e))
        (record s { ipam = ipam }),
  )
  after_gateway args (panic, ipam) s = (panic, record s { ipam = ipam })

  abbrev pub after_subnet :
      NetCreateArgs → Answer B (Unit {0}) → Networks B → Outcome (Unit {0}) × Networks B
  after_subnet args (ok _, ipam) s =
      after_gateway args (allocate_gateway B profile args.subnet ipam) (record s { ipam = ipam })
  after_subnet args (err e, ipam) s = (
    ok tt,
    reply (error ("Failed to create network, add subnet fail: " ⧺ e)) (record s { ipam = ipam }),
  )
  after_subnet args (panic, ipam) s = (panic, record s { ipam = ipam })

  -- `create_network`, when the networks have been loaded.
  unfoldable pub create_network : NetCreateArgs → Networks B → Outcome (Unit {0}) × Networks B
  create_network args s =
      if Dict.contains_key args.name s.networks
      then (
        ok tt,
        reply (error ("Failed to create network, network already exists: " ⧺ args.name)) s,
      )
      else if not (str_eq args.driver "bridge")
      then (ok tt, reply (error ("Failed to create network, invalid driver: " ⧺ args.driver)) s)
      else after_subnet args (add_subnet B profile args.subnet s.ipam) s
