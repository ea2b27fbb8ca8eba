-- ===== src/Joinstr/Setup.antt =====
-- The constructors and builders of `Joinstr`. A builder consumes its object, so what it leaves
-- behind counts only where it succeeds.
use Prim.Native.String.{String}
use joinstr.Prelude.{
  true, false, ℕ, none, some, ltb, is_none, if◌then◌else◌, Outcome, ok, err, panic, unfinished,
  Action, gets, ok_or, throw, throw_if, pure, yields, map_err, ◌>>=◌, ◌>>◌,
}
use joinstr.Bitcoin.{Address, Network}
use joinstr.Nostr.Pool.{Pool, Keys, Fee, Timeline}
use joinstr.Signer.{Coin}
use joinstr.Joinstr.Error.{
  Error, nostr, electrum, pool_payload_missing, fee_provider_not_implemented,
  timeline_not_implemented, wrong_address_network, wrong_denomination, denomination_already_set,
  min_2_peers, peers_already_set, timeout_already_set, fee_already_set, already_have_input,
  already_have_output,
}
use joinstr.Joinstr.Host.{Host, Float}
use joinstr.Joinstr.State.{JoinstrInner, Joinstr, default_inner, reads, update, peer, initiator}
use joinstr.Joinstr.Pool.{check_pool_not_exists}

module _ {N C W : Type 0} where
  unfoldable pub set_network : Network → Action (Joinstr N C W) Error (Unit {0})
  set_network network = update (λ i. record i { network = network })

  unfoldable pub set_min_peers : ℕ → Action (Joinstr N C W) Error (Unit {0})
  unfolding check_pool_not_exists
  set_min_peers peers = do
    throw_if (ltb peers 2) min_2_peers
    reads check_pool_not_exists
    set ← gets (λ s. s.inner.peers_count)
    if is_none set
        then update (λ i. record i { peers_count = some peers })
        else throw peers_already_set

  unfoldable pub set_simple_timeout : ℕ → Action (Joinstr N C W) Error (Unit {0})
  unfolding check_pool_not_exists
  set_simple_timeout timestamp = do
    reads check_pool_not_exists
    set ← gets (λ s. s.inner.timeout)
    if is_none set
        then update (λ i. record i { timeout = some (Timeline.simple timestamp) })
        else throw timeout_already_set

  unfoldable pub set_relay : String → Action (Joinstr N C W) Error (Unit {0})
  unfolding check_pool_not_exists
  set_relay url = do reads check_pool_not_exists; update (λ i. record i { relay = some url })

  unfoldable pub set_fee : ℕ → Action (Joinstr N C W) Error (Unit {0})
  unfolding check_pool_not_exists
  set_fee fee = do
    reads check_pool_not_exists
    set ← gets (λ s. s.inner.fee)
    if is_none set
        then update (λ i. record i { fee = some (Fee.fixed fee) })
        else throw fee_already_set

  unfoldable pub set_coin : Coin → Action (Joinstr N C W) Error (Unit {0})
  set_coin coin = do
    set ← gets (λ s. s.inner.input)
    if is_none set then update (λ i. record i { input = some coin }) else throw already_have_input

module _ {N C W : Type 0} (host : Host N C W) where
  unfoldable pub set_denomination : Float → Action (Joinstr N C W) Error (Unit {0})
  unfolding check_pool_not_exists
  set_denomination denomination = do
    reads check_pool_not_exists
    set ← gets (λ s. s.inner.denomination)
    if is_none set
        then (do
          amount ← ok_or (host.from_btc denomination) wrong_denomination
          update (λ i. record i { denomination = some amount }))
        else throw denomination_already_set

  unfoldable pub set_address : Address → Action (Joinstr N C W) Error (Unit {0})
  set_address addr = do
    network ← gets (λ s. s.inner.network)
    if host.bitcoin.is_valid_for_network addr network
        then (do
          set ← gets (λ s. s.inner.output)
          if is_none set
              then update (λ i. record i { output = some addr })
              else throw already_have_output)
        else throw wrong_address_network

  -- `connect_nostr` on a client that is not part of the object yet
  unfoldable pub connect : N → Action W Error N
  connect client w =
      let (r, t) = host.nostr.connect_nostr (client, w) in
      (
        elim r [ ok _ ↦ ok t.0 | err e ↦ err (nostr e) | panic ↦ panic | unfinished ↦ unfinished ],
        t.1,
      )

  -- Builders on a new object.
  abbrev pub builds :
      Action (Joinstr N C W) Error (Unit {0}) → JoinstrInner N C → Action W Error (JoinstrInner N C)
  builds m inner w =
      let (r, s) = m (record { inner = inner; world = w }) in
      (
        elim r [ ok _ ↦ ok s.inner | err e ↦ err e | panic ↦ panic | unfinished ↦ unfinished ],
        s.world,
      )

  unfoldable pub new : Keys → (relay name : String) → Action W Error (JoinstrInner N C)
  unfolding connect
  new keys relay name = do
    with_relay ← yields (map_err nostr (host.nostr.relay relay (host.nostr.new name)))
    with_keys ← yields (map_err nostr (host.nostr.keys keys with_relay))
    client ← connect with_keys
    pure (record (default_inner client) { relay = some relay })

  -- `Client::new` of the electrum client
  abbrev pub new_electrum : (address : String) (port : ℕ) → Action W Error C
  new_electrum address port w =
      let (r, w') = host.electrum.new address port w in (map_err electrum r, w')

  unfoldable pub new_with_electrum :
      Keys → (relay : String) → String × ℕ → (name : String) → Action W Error (JoinstrInner N C)
  unfolding new
  new_with_electrum keys relay (address, port) name = do
    client ← new_electrum address port
    j ← new keys relay name
    pure (record j { electrum_client = some client })

  -- The settings that a peer takes from the payload of a pool: the denomination in bitcoins, the
  -- fee, the deadline and the number of peers.
  unfoldable pub peer_settings : Pool → Outcome Error (Float × ℕ × ℕ × ℕ)
  peer_settings pool = elim pool.payload [
    | none ↦ err pool_payload_missing
    | some payload ↦ elim payload.fee [
      | Fee.provider _ ↦ err fee_provider_not_implemented
      | Fee.fixed fee ↦ elim payload.timeout [
        | Timeline.simple t ↦ ok (host.to_btc payload.denomination, fee, t, payload.peers)
        | Timeline.fixed _ _ ↦ err timeline_not_implemented
        | Timeline.timeout _ _ ↦ err timeline_not_implemented
      ]
    ]
  ]

  unfoldable pub new_peer :
      (relay : String)
      → Pool
      → Coin
      → Address
      → Network
      → (name : String) → Action W Error (JoinstrInner N C)
  unfolding peer_settings new set_network set_denomination set_fee set_simple_timeout set_min_peers
  new_peer relay pool input output network name = do
    settings ← yields (peer_settings pool)
    throw_if (if host.bitcoin.is_valid_for_network output network then false else true)
        wrong_address_network
    keys ← λ w. let (k, w') = host.generate_keys w in (ok k, w')
    j ← new keys relay name
    j1 ←
        builds
          (do
            set_network network
            set_denomination settings.0
            set_fee settings.1
            set_simple_timeout settings.2
            set_min_peers settings.3)
          j
    pure (record j1 { input = some input; output = some output; role = peer })

  unfoldable pub new_peer_with_electrum :
      (relay : String)
      → Pool
      → String × ℕ
      → Coin
      → Address
      → Network
      → (name : String) → Action W Error (JoinstrInner N C)
  unfolding new_peer
  new_peer_with_electrum relay pool (address, port) input output network name = do
    client ← new_electrum address port
    j ← new_peer relay pool input output network name
    pure (record j { role = peer; electrum_client = some client })

  unfoldable pub new_initiator :
      Keys
      → (relay : String) → String × ℕ
      → Network
      → (name : String) → Action W Error (JoinstrInner N C)
  unfolding new_with_electrum set_network
  new_initiator keys relay server network name = do
    j ← new_with_electrum keys relay server name
    j1 ← builds (set_network network) j
    pure (record j1 { role = initiator })
