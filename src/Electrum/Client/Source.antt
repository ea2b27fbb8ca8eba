-- ===== src/Electrum/Client/Source.antt =====
-- The electrum client as the hot signer uses it.
use joinstr.Prelude.{ok, err, panic, unfinished}
use joinstr.Signer.Hot.{CoinSource}
use joinstr.Electrum.Client.{Sockets, Codec, Client, get_coins_at}

-- `client.get_coins_at(&spk)`, of which the signer drops the transactions
unfoldable pub coin_source : {R W : Type 0} → Sockets R W → Codec → CoinSource (Client R)
unfolding get_coins_at
coin_source sockets codec = record {
  get_coins_at = λ spk c.
      let (r, c') = get_coins_at sockets codec spk c in
      (
        elim r [ ok found ↦ ok found.0 | err e ↦ err e | panic ↦ panic | unfinished ↦ unfinished ],
        c',
      );
}
