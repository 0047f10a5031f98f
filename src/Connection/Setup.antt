-- ===== src/Connection/Setup.antt =====
-- `setup_network` of main/connection_handler.c: the client finds a server and connects to it. The network,
-- mDNS, the stored settings and lwIP are parameters; `N` is what they keep. The loops run on fuel, and
-- `waiting` is a loop that still runs.
pub mod Found
use snapclient.Base.{
  ℕ, zero, suc, ◌%◌, ◌^◌, ◌==◌, List, [], ◌∷◌, Option, none, some, Bool, true, false, not, ◌&&◌,
  ◌||◌, if◌then◌else◌,
}

-- The type of an `ip_addr_t`.
pub data AddressType : Type 0 where
  v4 v6 other_type : AddressType

pub record Address : Type 0 where
  pub type : AddressType
  pub bytes : List ℕ

-- `mdns_result_t`, with the first of its addresses.
pub record MdnsResult : Type 0 where
  pub addr : Option Address
  pub netif : ℕ
  pub port : ℕ

-- What the code uses of others. `query` is `mdns_query_ptr`, with whether it failed; `host` and `port` are
-- stored settings; `new`, `bind_if` and `connect` say whether they succeeded.
pub record Network (N : Type 0) : Type 0 where
  pub is_netif_up : ℕ → N → Bool
  pub delay : N → N
  pub mdns_enabled : N → Option Bool
  pub query : N → Bool × List MdnsResult × N
  pub host : N → Option (List ℕ)
  pub port : N → Option ℕ
  pub aton : List ℕ → Option Address
  pub new : AddressType → N → Bool × N
  pub bind_if : ℕ → N → Bool × N
  pub connect : Address → ℕ → N → Bool × N
  pub close : N → N
  pub delete : N → N
  pub eth_netif : ℕ
  pub sta_netif : ℕ

-- The configuration: Ethernet, mDNS and IPv6.
pub record Config : Type 0 where
  pub ethernet : Bool
  pub use_mdns : Bool
  pub ipv6 : Bool

-- The address, port and interface to connect with.
pub record Target : Type 0 where
  pub address : Address
  pub remote_port : ℕ
  pub netif : ℕ

-- How a part ends: with a result, with `continue` of the outer loop, or not yet.
pub data Attempt (A : Type 0) : Type 0 where
  success : A → Attempt A
  again : Attempt A
  waiting : Attempt A

abbrev pub is_type : AddressType → AddressType → Bool
is_type v4 v4 = true
is_type v6 v6 = true
is_type other_type other_type = true
is_type _ _ = false

abbrev pub wanted : Bool → MdnsResult → Bool
wanted ipv6 r = elim r.addr [ none ↦ false | some a ↦ is_type a.type (if ipv6 then v6 else v4) ]

-- `while (re)`: the first result whose address has the wanted type.
unfoldable pub find_result : Bool → List MdnsResult → Option MdnsResult
find_result ipv6 [] = none
find_result ipv6 (r ∷ rs) = let rest = find_result ipv6 rs in if wanted ipv6 r then some r else rest

-- The address and the interface are those of the result that was found, and the port is the first
-- result's.
abbrev pub target_of : MdnsResult → Option MdnsResult → Attempt Target
target_of r none = again
target_of r (some re) = elim re.addr [
  | none ↦ again
  | some a ↦ success (record { address = a; remote_port = r.port; netif = re.netif })
]

module _ {N : Type 0} (network : Network N) (config : Config) where
  -- Until an interface is up; Ethernet is preferred.
  unfoldable pub wait_for_netif : ℕ → N → Attempt ℕ × N
  wait_for_netif zero n = (waiting, n)
  wait_for_netif (suc fuel) n =
      let rest = wait_for_netif fuel (network.delay n) in
      if config.ethernet && network.is_netif_up network.eth_netif n
      then (success network.eth_netif, n)
      else if network.is_netif_up network.sta_netif n
      then (success network.sta_netif, n)
      else rest

  -- `while (!r || err)`
  abbrev pub after_query :
      (N → Attempt Target × N) → Bool × List MdnsResult × N → Attempt Target × N
  after_query go (true, [], n) = go (network.delay (network.delay n))
  after_query go (true, r ∷ rs, n) = go (network.delay n)
  after_query go (false, [], n) = go (network.delay n)
  after_query go (false, r ∷ rs, n) = (target_of r (find_result config.ipv6 (r ∷ rs)), n)

  unfoldable pub mdns_target : ℕ → N → Attempt Target × N
  unfolding find_result
  mdns_target zero n = (waiting, n)
  mdns_target (suc fuel) n = after_query (λ n'. mdns_target fuel n') (network.query n)

  abbrev pub static_address : ℕ → ℕ → Option Address → N → Attempt Target × N
  static_address netif port none n = (again, n)
  static_address netif port (some a) n =
      (success (record { address = a; remote_port = port % 2 ^ 16; netif = netif }), n)

  abbrev pub static_port : ℕ → List ℕ → Option ℕ → N → Attempt Target × N
  static_port netif host none n = (again, network.delay n)
  static_port netif host (some port) n =
      if port == 0
      then (again, network.delay n)
      else static_address netif port (network.aton host) n

  abbrev pub static_host : ℕ → Option (List ℕ) → N → Attempt Target × N
  static_host netif none n = (again, network.delay n)
  static_host netif (some []) n = (again, network.delay n)
  static_host netif (some (c ∷ host)) n = static_port netif (c ∷ host) (network.port n) n

  -- mDNS is the default where the setting cannot be read.
  abbrev pub mdns_wanted : Option Bool → Bool
  mdns_wanted none = true
  mdns_wanted (some wanted) = wanted

  unfoldable pub choose_target : ℕ → ℕ → N → Attempt Target × N
  unfolding mdns_target
  choose_target fuel netif n =
      if config.use_mdns && mdns_wanted (network.mdns_enabled n)
      then mdns_target fuel n
      else static_host netif (network.host n) n

  -- Both of `netconn_bind_if` and `netconn_connect` are called, and both have to succeed.
  abbrev pub after_connect : Target → Bool → Bool × N → Attempt Target × N
  after_connect target true (true, n) = (success target, n)
  after_connect target false (true, n) = (again, network.delete (network.close n))
  after_connect target true (false, n) = (again, network.delete (network.close (network.delay n)))
  after_connect target false (false, n) = (again, network.delete (network.close (network.delay n)))

  abbrev pub after_bind : Target → Bool × N → Attempt Target × N
  after_bind target (bound, n) =
      after_connect target bound (network.connect target.address target.remote_port n)

  abbrev pub after_new : Target → Bool × N → Attempt Target × N
  after_new target (false, n) = (again, n)
  after_new target (true, n) = after_bind target (network.bind_if target.netif n)

  unfoldable pub connect_to : Target → N → Attempt Target × N
  connect_to target n =
      if is_type target.address.type other_type
      then (again, n)
      else after_new target (network.new target.address.type n)

  abbrev pub after_choose : Attempt Target × N → Attempt Target × N
  after_choose (success target, n) = connect_to target n
  after_choose (again, n) = (again, n)
  after_choose (waiting, n) = (waiting, n)

  abbrev pub after_netif : ℕ → Attempt ℕ × N → Attempt Target × N
  after_netif fuel (success netif, n) = after_choose (choose_target fuel netif n)
  after_netif fuel (again, n) = (again, n)
  after_netif fuel (waiting, n) = (waiting, n)

  abbrev pub after_attempt : (N → Attempt Target × N) → Attempt Target × N → Attempt Target × N
  after_attempt go (success target, n) = (success target, n)
  after_attempt go (again, n) = go n
  after_attempt go (waiting, n) = (waiting, n)

  -- With whether there is an old connection, which is deleted first; only a round that returns leaves
  -- one.
  unfoldable pub setup_network : ℕ → Bool → N → Attempt Target × N
  unfolding wait_for_netif choose_target connect_to
  setup_network zero old n = (waiting, n)
  setup_network (suc fuel) old n =
      after_attempt (λ n'. setup_network fuel false n')
        (after_netif fuel (wait_for_netif fuel (if old then network.delete n else n)))
