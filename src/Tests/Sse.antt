-- ===== src/Tests/Sse.antt =====
-- Package sse.
use tailhopper.Base.{
  List, map, Str, pos, codes, str_eq, inr, get_elem?, ◌≡◌, refl, false, none, some, [], ◌∷◌, arith,
}
use tailhopper.Sse.{
  event, channel_closed, tailnet_event, serve_sse, Channel, SseBroadcaster, find, snapshot, enqueue,
  deliver, broadcast, unsubscribe, global_event,
}
use tailhopper.Sse.Race.{broadcast_race}
use tailhopper.Sse.Invariant.{
  Inv, broadcasts, unsubscribes, subscribes, perform_all, perform_all-Inv,
}
use tailhopper.Sse.Bounds.{take, broadcasts_bounded}
use tailhopper.Sse.Stream.{read_stream}
use tailhopper.Sse.Stream.Laws.{read-serve_sse}
use tailhopper.Sse.Delivery.{broadcast_delivers}

abbrev open_channel : Channel
open_channel = record { buffer = []; closed = false }

abbrev pub one_client : SseBroadcaster
one_client = record {
  subscribers = (codes "client-1", 0) ∷ [];
  next_client = pos 2;
  channels = open_channel ∷ [];
}

pub one_client-Inv : Inv one_client
one_client-Inv = record { opened = ((refl, omega arith), tt); distinct = (tt, tt) }

broadcast_race_example :
    deliver global_event (snapshot one_client) (unsubscribe (codes "client-1") one_client).channels
    ≡ none
unfolding find str_eq
broadcast_race_example =
    broadcast_race global_event (codes "client-1") one_client 0 open_channel refl refl

perform_all-Inv_example :
    (b : SseBroadcaster) × (perform_all
        (subscribes ∷ unsubscribes (codes "client-1") ∷ broadcasts global_event ∷ [])
        one_client
      ≡ some b)
    × Inv b
perform_all-Inv_example =
    perform_all-Inv (subscribes ∷ unsubscribes (codes "client-1") ∷ broadcasts global_event ∷ [])
      one_client one_client-Inv

broadcast_delivers_example :
    get_elem? (record one_client { channels = enqueue global_event open_channel ∷ [] }).channels 0
    ≡ some (enqueue global_event open_channel)
unfolding broadcast find str_eq
broadcast_delivers_example =
    (broadcast_delivers global_event (codes "client-1") one_client
      (record one_client { channels = enqueue global_event open_channel ∷ [] }) 0 open_channel
      one_client-Inv refl refl refl).0

-- Eleven events, of which the last finds the channel full.
abbrev eleven : List Str
eleven =
    codes "1"
    ∷ codes "2"
    ∷ codes "3"
    ∷ codes "4"
    ∷ codes "5"
    ∷ codes "6"
    ∷ codes "7"
    ∷ codes "8"
    ∷ codes "9"
    ∷ codes "10"
    ∷ codes "11"
    ∷ []

broadcasts_bounded_example :
    (b : SseBroadcaster) × (perform_all (map broadcasts eleven) one_client ≡ some b)
    × (get_elem? b.channels 0 ≡ some (record open_channel { buffer = take 10 eleven }))
unfolding find str_eq
broadcasts_bounded_example =
    broadcasts_bounded (codes "client-1") eleven 0 open_channel one_client one_client-Inv refl refl

read-serve_sse_example :
    read_stream (serve_sse (event (tailnet_event (pos 2)) ∷ channel_closed ∷ event [] ∷ []))
    ≡ (global_event, codes "update") ∷ (tailnet_event (pos 2), codes "update") ∷ []
read-serve_sse_example =
    read-serve_sse (event (tailnet_event (pos 2)) ∷ channel_closed ∷ event [] ∷ [])
      (inr (pos 2, refl), tt)
