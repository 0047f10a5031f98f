-- ===== src/Connection/Setup/Found.antt =====
-- The server that `setup_network` of main/connection_handler.c connects to.
use snapclient.Base.{
  ℕ, suc, ◌%◌, ◌^◌, ◌==◌, ◌≡◌, ap, ◌∙◌, List, [], ◌∷◌, ◌++◌, Option, some, Bool, true, false, All,
}
use snapclient.Connection.Setup.{
  Address, MdnsResult, Network, Config, Target, Attempt, success, other_type, is_type, wanted,
  find_result, target_of, wait_for_netif, after_query, mdns_target, choose_target, after_choose,
  after_netif, after_attempt, after_new, after_bind, after_connect, connect_to, setup_network,
}

abbrev pub IsUnwanted : Bool → MdnsResult → Type 0
IsUnwanted ipv6 r = wanted ipv6 r ≡ false

find_result-first :
    (ipv6 : Bool) (before after : List MdnsResult) (re : MdnsResult)
    → All (IsUnwanted ipv6) before
    → wanted ipv6 re ≡ true
    → find_result ipv6 (before ++ re ∷ after) ≡ some re
unfolding find_result
find_result-first ipv6 [] after re u e = rw e
find_result-first ipv6 (r ∷ before) after re (p, u) e =
    rw p (find_result-first ipv6 before after re u e)

module _ {N : Type 0} (network : Network N) (config : Config) where
  -- Of the results of mDNS the first one with an address of the wanted type is taken, with its interface;
  -- but the port is that of the first result of all.
  pub mdns_target-first :
      (fuel : ℕ) (n n' : N) (r re : MdnsResult) (before after : List MdnsResult) (a : Address)
      → network.query n ≡ (false, r ∷ (before ++ re ∷ after), n')
      → All (IsUnwanted config.ipv6) (r ∷ before)
      → wanted config.ipv6 re ≡ true
      → re.addr ≡ some a
      → mdns_target network config (suc fuel) n
        ≡ (success (record { address = a; remote_port = r.port; netif = re.netif }), n')
  unfolding mdns_target
  mdns_target-first fuel n n' r re before after a q u e k =
      ap (after_query network config (λ x. mdns_target network config fuel x)) q
      ∙ ap (λ (o : Option MdnsResult). (target_of r o, n'))
          (find_result-first config.ipv6 (r ∷ before) after re u e)
      ∙ rw k

  -- A server that is set by hand is connected to in the first round, where the station's interface is
  -- up and lwIP makes the connection.
  pub setup_network-static :
      (fuel : ℕ) (n n1 n2 n3 : N) (c port : ℕ) (host : List ℕ) (a : Address)
      → config.ethernet ≡ false
      → config.use_mdns ≡ false
      → network.is_netif_up network.sta_netif n ≡ true
      → network.host n ≡ some (c ∷ host)
      → network.port n ≡ some port
      → (port == 0) ≡ false
      → network.aton (c ∷ host) ≡ some a
      → is_type a.type other_type ≡ false
      → network.new a.type n ≡ (true, n1)
      → network.bind_if network.sta_netif n1 ≡ (true, n2)
      → network.connect a (port % 2 ^ 16) n2 ≡ (true, n3)
      → setup_network network config (suc (suc fuel)) false n ≡ (
        success (record { address = a; remote_port = port % 2 ^ 16; netif = network.sta_netif }),
        n3,
      )
  unfolding setup_network wait_for_netif choose_target connect_to
  setup_network-static fuel n n1 n2 n3 c port host a e0 e1 up h p z t y nw b cn =
      let target : Target = record {
        address = a;
        remote_port = port % 2 ^ 16;
        netif = network.sta_netif;
      } in
      let go = λ (x : N). setup_network network config (suc fuel) false x in
      let found : wait_for_netif network config (suc fuel) n ≡ (success network.sta_netif, n) =
        rw (e0, up) in
      let chosen : choose_target network config (suc fuel) network.sta_netif n
          ≡ (success target, n) =
        rw (e1, h, p, z, t) in
      let connected : connect_to network config target n ≡ (success target, n3) = rw y (
        ap (after_new network config target) nw
        ∙ ap (after_bind network config target) b
        ∙ ap (after_connect network config target true) cn) in
      ap
        (λ (x : Attempt ℕ × N).
          after_attempt network config go (after_netif network config (suc fuel) x))
        found
      ∙ ap
          (λ (x : Attempt Target × N).
            after_attempt network config go (after_choose network config x))
          chosen
      ∙ ap (after_attempt network config go) connected
