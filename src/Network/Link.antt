-- ===== src/Network/Link.antt =====
-- The methods of `BridgeDriver` in src/core/network/bridge.rs on the crate rtnetlink and the program
-- `iptables`, whose answers are a parameter; and `connect`, with the `Endpoint` of
-- src/core/network/mod.rs.
use rtain.Base.{
  ℕ, String, Bool, true, false, List, [], ◌∷◌, Option, Outcome, ok, err, panic, ◌>>=◌, ◌>>◌, ok_or,
}
use rtain.Base.Bytes.{Bytes}
use rtain.Base.Text.{◌⧺◌}
use rtain.Network.Bridge.{Network, Netlink}

-- A link has a number, its index.
pub record Handle : Type 0 where
  pub new_connection : Outcome (Unit {0})
  pub add_bridge : String → Outcome (Unit {0})
  pub add_veth : String → String → Outcome (Unit {0})
  pub match_name : String → Outcome (Option ℕ)
  pub del : ℕ → Outcome (Unit {0})
  pub add_address : ℕ → ℕ → ℕ → Outcome (Unit {0})
  pub set_controller : ℕ → ℕ → Outcome (Unit {0})
  pub set_up : ℕ → Outcome (Unit {0})
  pub open_file : String → Outcome ℕ
  pub setns_by_fd : ℕ → ℕ → Outcome (Unit {0})
  -- whether the program has succeeded
  pub iptables : List String → Outcome Bool

pub record Endpoint : Type 0 where
  pub container_id : String
  pub veth_host : String
  pub veth_peer : String
  pub container_ip : ℕ

-- `context`: the text that is shown of an error.
abbrev pub context : {A : Type 0} → String → Outcome A → Outcome A
context message (ok a) = ok a
context message (err e) = err message
context message panic = panic

-- `then_some` and `context`.
abbrev pub success : Bool → Outcome (Unit {0})
success true = ok tt
success false = err "`iptables` exited with non-zero status"

module _ (handle : Handle) where
  unfoldable pub get_link_by_name : String → Outcome ℕ
  get_link_by_name name = do link ← handle.match_name name; ok_or link "Link not found"

  unfoldable pub create_bridge : String → Outcome (Unit {0})
  create_bridge name = do handle.new_connection; handle.add_bridge name

  unfoldable pub delete_bridge : String → Outcome (Unit {0})
  delete_bridge name = do handle.new_connection; link ← get_link_by_name name; handle.del link

  unfoldable pub create_veth_pair : String → String → Outcome (Unit {0})
  create_veth_pair host_veth peer_veth = do
    handle.new_connection
    handle.add_veth host_veth peer_veth

  unfoldable pub set_bridge_ip : String → ℕ → ℕ → Outcome (Unit {0})
  set_bridge_ip bridge ip prefix_len = do
    handle.new_connection
    bridge_link ← get_link_by_name bridge
    handle.add_address bridge_link ip prefix_len

  unfoldable pub add_to_bridge : String → String → Outcome (Unit {0})
  add_to_bridge iface bridge = do
    handle.new_connection
    bridge_link ← get_link_by_name bridge
    iface_link ← get_link_by_name iface
    handle.set_controller iface_link bridge_link

  unfoldable pub move_to_netns : String → String → Outcome (Unit {0})
  move_to_netns iface netns = do
    handle.new_connection
    iface_link ← get_link_by_name iface
    netns_file ← handle.open_file netns
    handle.setns_by_fd iface_link netns_file

  unfoldable pub set_link_up : String → Outcome (Unit {0})
  set_link_up name = do handle.new_connection; link ← get_link_by_name name; handle.set_up link

  unfoldable pub exec_iptables : List String → Outcome (Unit {0})
  exec_iptables args = do status ← handle.iptables args; success status

  unfoldable pub set_basic_iptables : String → String → Outcome (Unit {0})
  set_basic_iptables name cidr = do
    context "Failed to set FORWARD rule"
        (exec_iptables ("-A" ∷ "FORWARD" ∷ "-i" ∷ name ∷ "-j" ∷ "ACCEPT" ∷ []))
    context "Failed to set MASQUERADE rule" (
        exec_iptables
          ("-t" ∷ "nat" ∷ "-A" ∷ "POSTROUTING" ∷ "-s" ∷ cidr ∷ "-j" ∷ "MASQUERADE" ∷ []))

  -- The answers that `create_network` and `delete_network` get from these methods, and what the
  -- file system does with a file.
  unfoldable pub netlink : (Option Bytes → Bytes → Outcome (Unit {0}) × Option Bytes) → Netlink
  netlink write = record {
    add_bridge = create_bridge;
    del_link = delete_bridge;
    add_address = set_bridge_ip;
    set_up = set_link_up;
    iptables = set_basic_iptables;
    fs_write = write;
  }

  -- `connect`
  unfoldable pub connect : Network → Endpoint → Outcome ℕ
  connect network endpoint = do
    context "Failed to create veth pair" (create_veth_pair endpoint.veth_host endpoint.veth_peer)
    context "Failed to add veth to bridge" (add_to_bridge endpoint.veth_host network.name)
    context "Failed to set host veth up" (set_link_up endpoint.veth_host)
    context "Failed to move veth to container netns"
        (move_to_netns endpoint.veth_peer ("/proc/" ⧺ endpoint.container_id ⧺ "/ns/net"))
    ok endpoint.container_ip
