-- ===== src/Sse.antt =====
-- internal/sse/sse.go. A channel is shared by the map of subscribers, the senders and the request
-- that serves it, so the channels stand in a heap under their addresses.
pub mod Laws
pub mod Race
pub mod Invariant
pub mod Delivery
pub mod Bounds
pub mod Before
pub mod Stream
use tailhopper.Base.{
  ℕ, ℤ, pos, Str, codes, str_eq, int_succ, length, get_elem?, set, leb, Bool, true, false, Option,
  none, some, List, [], ◌∷◌, ◌++◌, map, if◌then◌else◌,
}
use tailhopper.Base.Decimal.{print_int}

-- A buffered `chan string`.
pub record Channel : Type 0 where
  pub buffer : List Str
  pub closed : Bool

-- `subscribers` maps a client's id to its channel.
pub record SseBroadcaster : Type 0 where
  pub subscribers : List (Str × ℕ)
  pub next_client : ℤ
  pub channels : List Channel

-- `make(chan string, 10)`
abbrev pub capacity : ℕ
capacity = 10

unfoldable pub new_sse_broadcaster : SseBroadcaster
new_sse_broadcaster = record { subscribers = []; next_client = pos 1; channels = [] }

unfoldable pub client_id : ℤ → Str
client_id n = codes "client-" ++ print_int n

unfoldable pub find : Str → List (Str × ℕ) → Option ℕ
find id [] = none
find id ((k, a) ∷ m) = if str_eq k id then some a else find id m

unfoldable pub put : Str → ℕ → List (Str × ℕ) → List (Str × ℕ)
put id a [] = (id, a) ∷ []
put id a ((k, c) ∷ m) = if str_eq k id then (id, a) ∷ m else (k, c) ∷ put id a m

unfoldable pub take_out : Str → List (Str × ℕ) → List (Str × ℕ)
take_out id [] = []
take_out id ((k, a) ∷ m) = if str_eq k id then take_out id m else (k, a) ∷ take_out id m

-- `Subscribe`: the client's id and its channel.
unfoldable pub subscribe : SseBroadcaster → SseBroadcaster × Str × ℕ
unfolding put
subscribe b = (
  record b {
    subscribers = put (client_id b.next_client) (length b.channels) b.subscribers;
    next_client = int_succ b.next_client;
    channels = b.channels ++ record { buffer = []; closed = false } ∷ [];
  },
  client_id b.next_client,
  length b.channels,
)

abbrev pub close_in : List Channel → ℕ → Option Channel → List Channel
close_in cs a none = cs
close_in cs a (some ch) = set cs a (record ch { closed = true })

unsubscribe_found : Str → Option ℕ → SseBroadcaster → SseBroadcaster
unfolding take_out
unsubscribe_found id none b = b
unsubscribe_found id (some a) b = record b {
  subscribers = take_out id b.subscribers;
  channels = close_in b.channels a (get_elem? b.channels a);
}

-- `Unsubscribe`
unfoldable pub unsubscribe : Str → SseBroadcaster → SseBroadcaster
unfolding unsubscribe_found find
unsubscribe id b = unsubscribe_found id (find id b.subscribers) b

-- What a send that does not block leaves in an open channel: the event, or nothing if it is full.
unfoldable pub enqueue : Str → Channel → Channel
enqueue event ch =
    if leb capacity (length ch.buffer) then ch else record ch { buffer = ch.buffer ++ event ∷ [] }

-- `select { case ch <- event: default: }`; `none` is the panic of a send on a closed channel.
unfoldable pub send : Str → Channel → Option Channel
unfolding enqueue
send event ch = if ch.closed then none else some (enqueue event ch)

abbrev store_sent : List Channel → ℕ → Option Channel → Option (List Channel)
store_sent cs a none = none
store_sent cs a (some ch) = some (set cs a ch)

abbrev send_to : Str → List Channel → ℕ → Option Channel → Option (List Channel)
send_to event cs a none = some cs
send_to event cs a (some ch) = store_sent cs a (send event ch)

abbrev and_then :
    Option (List Channel) → (List Channel → Option (List Channel)) → Option (List Channel)
and_then none f = none
and_then (some cs) f = f cs

-- The channels that `Broadcast` copies while it holds the lock.
unfoldable pub snapshot : SseBroadcaster → List ℕ
snapshot b = map (λ e. e.1) b.subscribers

-- The loop of `Broadcast`, without the lock.
unfoldable pub deliver : Str → List ℕ → List Channel → Option (List Channel)
deliver event [] cs = some cs
deliver event (a ∷ rest) cs = and_then (send_to event cs a (get_elem? cs a)) (deliver event rest)

abbrev with_channels : SseBroadcaster → Option (List Channel) → Option SseBroadcaster
with_channels b none = none
with_channels b (some cs) = some (record b { channels = cs })

-- `Broadcast` when nothing comes between its two parts.
unfoldable pub broadcast : Str → SseBroadcaster → Option SseBroadcaster
unfolding snapshot deliver send
broadcast event b = with_channels b (deliver event (snapshot b) b.channels)

unfoldable pub tailnet_event : ℤ → Str
tailnet_event id = codes "tailnet-" ++ print_int id

abbrev pub global_event : Str
global_event = codes "global"

-- `BroadcastTailnetChange` and `BroadcastGlobalChange`
unfoldable pub broadcast_tailnet_change : ℤ → SseBroadcaster → Option SseBroadcaster
unfolding broadcast tailnet_event
broadcast_tailnet_change id b = broadcast (tailnet_event id) b

unfoldable pub broadcast_global_change : SseBroadcaster → Option SseBroadcaster
unfolding broadcast
broadcast_global_change b = broadcast global_event b

-- `writeSSEEvent`
unfoldable pub write_sse_event : Str → Str
write_sse_event name = codes "event: " ++ name ++ 10 ∷ codes "data: update" ++ 10 ∷ 10 ∷ []

-- What the loop of `ServeSSE` is woken by.
pub data Woken : Type 0 where
  request_done channel_closed : Woken
  event : Str → Woken

unfoldable pub stream : List Woken → Str
unfolding write_sse_event
stream [] = []
stream (request_done ∷ more) = []
stream (channel_closed ∷ more) = []
stream (event name ∷ more) = write_sse_event name ++ stream more

-- The body that `ServeSSE` writes.
unfoldable pub serve_sse : List Woken → Str
unfolding stream
serve_sse wakes = write_sse_event global_event ++ stream wakes
