-- ===== src/Lib.antt =====
-- Joinstr: coinjoins over nostr relays. Peers meet in a pool, each registers one output and one
-- signed input, and every peer assembles the same transaction by itself.
--
-- CoinJoin (rust/joinstr/src/coinjoin): the transaction that a peer assembles. A `CoinJoin C` is
-- the struct, with the state `C` of the borrowed client in it. `generate_psbt`, `add_input`
-- and `generate_tx` are actions: they take the state and return an outcome (`ok`, `err`, `panic`)
-- and the state, as `Result` with `&mut self` does.
--   CoinJoin           the struct and its operations
--   CoinJoin.Backend   the errors, and the trait of the backend
--   CoinJoin.Outputs   the set of addresses
--   CoinJoin.Unsigned  the unsigned transaction
--   CoinJoin.Inputs    the inputs, and double spends
--   CoinJoin.Retry     what the backend is asked, and how often
--   CoinJoin.Amounts, CoinJoin.Final  the amounts, the fee and the final transaction
--   CoinJoin.Run       sequences of calls
-- The `loop`s that retry run BACKEND_RETRY + 1 times more at most, so they are recursion on what is
-- left of that count.
--
-- Bitcoin holds what the program uses of the bitcoin crate: structs as records, and the functions on
-- values that the program does not look into (addresses, scripts, PSBTs, weights) as the fields of
-- `Bitcoin`, with what is relied on as the fields of `IsLawful`. Bitcoin.Example is an instance.
--
-- Joinstr (rust/joinstr/src/joinstr): the protocol of a peer. A `Joinstr N C W` is what the `Mutex`
-- guards, `JoinstrInner`, with the state `W` of the world; its methods are actions. `N` and `C` are
-- the states of the nostr client and of the electrum client, which are interfaces here, fields of
-- `Host`, as are the clock, random numbers, and functions of other crates.
--   Joinstr.Host, Joinstr.State   the interfaces, the state, and the ways into its parts
--   Joinstr.Setup                 constructors and builders
--   Joinstr.Pool, Joinstr.Join    the pool: look-ups, timelines, `post`, `join_pool`
--   Joinstr.Outputs               `register_outputs`: peers, then outputs
--   Joinstr.Inputs                `register_inputs`, the own input, the broadcast
--   Joinstr.Start                 `start_coinjoin_blocking`, and the threads that run it
--   Joinstr.Saved, Joinstr.Restart  `status` and `state`, and `restart` from a saved state, with what
--                                 it restores (Restored, Resumed) and where it fails (Stuck)
--   Joinstr.Guarantee             what a successful run stores, posts and sends (Whole, Hosted); by
--                                 Client a run neither sets nor drops the electrum client
--   Joinstr.Progress              the rounds end; Joinstr.Results has what single methods do
-- A `while` is `loop` of Prelude.Loops on fuel, and `unfinished` where the fuel is used up. Each loop
-- reads the clock first and has a deadline, so the fuel that is enough is the number of readings
-- that fit before the last deadline (`IsTimely` relates readings and time).
--
-- Electrum: the client of rust/joinstr/src/electrum.rs and the protocol of
-- rust/simple_electrum_client/src. A `Client R` is the struct, with the state `R` of a socket in it.
--   Electrum.Method, Electrum.Params, Electrum.Request   requests, with their JSON (Json)
--   Electrum.Response, Electrum.Response.Parse           responses, and the reading of a text
--   Electrum.Client                                      the calls, each a request and its response
--   Electrum.Client.Backend                              as the backend of a coinjoin
--   Electrum.Client.Listen, Rounds                       the thread of `listen`, and one of its rounds
--   Electrum.Client.Listen.Pending                       one batch of requests at a time
-- The `while` loops that send a batch in `listen_txs` have no bound in the source, so their fuel is
-- the number of tries that are looked at.
-- The readers that serde derives, hexadecimal digits, the encoding of transactions and the socket
-- are parameters (`Serde`, `Codec`, `Sockets`).
--
-- Nostr: rust/joinstr/src/nostr and rust/simple_nostr_client/src.
--   Nostr.Input, Nostr.Pool      the types of pools and messages
--   Nostr.Message                the JSON of messages, and Nostr.Message.Trip their round trip
--   Nostr.WebSocket              `WsClient`: a relay, by two channels to the thread with the socket
--   Nostr.WebSocket.Connect      the builder's `connect`, which starts that thread
--   Nostr.WebSocket.Listen       the rounds of that thread, and Queues what it does to the channels
--   Nostr.Client                 `NostrClient` of nostr/sync; Relay makes it the interface of Joinstr
--   Nostr.Client.Delivery        a message from one peer to another
--   Nostr.Client.Modes, Lost     configuration and connection, and the close of a connection
-- A `Sender` and its `Receiver` are one queue and whether the thread at the other end still runs.
-- Encryption, signatures, and the JSON of nostr events are the fields of `Nip`; encodings of keys,
-- transactions and PSBTs are the fields of `Codec`.
--
-- Signer: rust/joinstr/src/signer. The keys, descriptors and signatures are fields of `Keychain`.
--   Signer.Hot, Signer.Sign  `WpkhHotSigner`: its making, addresses and coins, and `sign`
--   Signer.Signing           what it has signed
--   Signer.Coins, Bag        its coins, which are a `HashMap`, as a bag
--   Electrum.Client.Source   the electrum client as it uses it
--
-- Interface: rust/joinstr/src/interface.rs, what an application calls.
--   Interface            `list_coins`, `initiate_coinjoin` and `join_coinjoin`
--   Interface.Runs, Coinjoins  what the two coinjoins have run, posted and sent; Joinstr.Configured has
--                        what the constructors and builders of `Joinstr` set
--   Interface.Listed     the coins that are listed
--   Interface.Pools      `list_pools`, and the pools that it misses
-- The messages that arrive while `list_pools` sleeps are a parameter, as is the order in which a
-- `HashMap` gives its keys. Its loop has fuel for each message and one round more.
--
-- System: the clock, and `Backoff` of rust/backoff.
--
-- Not modelled: log lines, the texts that `Display` prints, other threads that hold the `Mutex`
-- between two steps of a method, the async nostr client, the sockets, the `new_local` of the electrum
-- client, the index rows of rust/simple_electrum_client/src/electrum/types.rs, `Pool::create`, which
-- the client does not call, and the settings of rust/joinstr_wallet. The saved state is a record here,
-- and its JSON is not modelled.
pub mod Prelude
pub mod System
pub mod Bitcoin
pub mod Json
pub mod Electrum
pub mod Nostr
pub mod CoinJoin
pub mod Signer
pub mod Joinstr
pub mod Interface
