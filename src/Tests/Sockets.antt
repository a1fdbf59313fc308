-- ===== src/Tests/Sockets.antt =====
-- The theorems on WebSockets on a few frames.
use rollup_boost.Prelude.{
  false, map, ℕ, zero, suc, ◌==◌, ◌≡◌, refl, ◌⊎◌, inl, inr, Bool, true, List, [], ◌∷◌, ◌++◌, Option,
  none, some, arith, nat_eq,
}
use rollup_boost.Flashblocks.{FlashblocksPayloadV1}
use rollup_boost.Flashblocks.Inbound.{
  Receiver, FlashblocksReceiverError, handle, reader, connected, read, timer, ping_tick,
}
use rollup_boost.Flashblocks.Inbound
use rollup_boost.Flashblocks.Inbound.Forwarded.{flashblocks_of, reader-IsForwarded}
use rollup_boost.Flashblocks.Inbound.Pongs.{unanswered_ends}
use rollup_boost.Sockets.{binary, ping, next, lagged, Backoff, Message, text, pong, close, message}
use rollup_boost.WsProxy.Registry.{broadcast, subscribe}
use rollup_boost.WsProxy.Registry.Delivery.{some_message, fallen_behind, Feed}
use rollup_boost.WsProxy.Subscriber.{
  Round, connect, refused, listen, handle_message, WebsocketSubscriber, default_options,
  connect_and_listen, established, run, deadline_check,
}
use rollup_boost.WsProxy.Subscriber
use rollup_boost.WsProxy.Registry
use rollup_boost.WsProxy.Start.{Args, tick, send_pings, ping_task, subscriber_options}
use rollup_boost.WsProxy.Relay.{relay}
use rollup_boost.WsProxy.Relay.Merge.{Merges, left, right, nothing}
use rollup_boost.WsProxy.Relay.Upstreams.{ArePings, AreFrom, senders, merged_upstreams}
use rollup_boost.Tests.Starting.{args}
use rollup_boost.WsProxy.Subscriber.Gauge.{refused_gauge, unreachable}
use rollup_boost.Tests.Samples.{cache}
use rollup_boost.Tests.Blocks.{first, second}

-- A backoff that is always the same.
abbrev constant : Backoff
constant = record {
  State = ℕ;
  new = λ initial greatest. initial;
  reset = λ s. s;
  next_backoff = λ s. (some s, s);
}

-- Two texts that are flashblocks, and ids of one byte.
abbrev parse : List ℕ → Option FlashblocksPayloadV1
parse [] = none
parse (zero ∷ bs) = some first
parse (suc n ∷ bs) = some second

abbrev id_of : List ℕ → Option ℕ
id_of [] = none
id_of (b ∷ bs) = some b

abbrev receiver : Receiver (cache ℕ (Unit {0})) constant parse id_of
receiver = record {
  config = record {
    initial_reconnect = 10;
    max_reconnect = 5000;
    connect_timeout = 5000;
    ping_interval = 500;
    pong_timeout = 1500;
  };
  sent = [];
  messages_received = 0;
  ping_cache = [];
  next_tick = 1500;
}

-- Two flashblocks, a frame that is none, and a look at the timer, with a ping that nobody answers.
abbrev frames : List (ℕ × Inbound.Event)
frames =
    (0, ping_tick 8 true)
    ∷ (10, read (message (text (0 ∷ []))) true)
    ∷ (20, read (message (pong (9 ∷ []))) true)
    ∷ (30, read (message (text (1 ∷ []))) true)
    ∷ (1600, timer)
    ∷ []

reader-IsForwarded_example :
    (now : List FlashblocksPayloadV1) × (later : List FlashblocksPayloadV1) × ((reader
        (cache ℕ (Unit {0}))
        constant
        parse
        id_of
        frames
        receiver).1.sent
      ≡ [] ++ now)
    × (now ++ later ≡ flashblocks_of (cache ℕ (Unit {0})) constant parse id_of frames)
    × ((later ≡ [])
        ⊎ ((x : ℕ × FlashblocksReceiverError) × ((reader
                (cache ℕ (Unit {0}))
                constant
                parse
                id_of
                frames
                receiver).0
              ≡ some x)))
reader-IsForwarded_example =
    reader-IsForwarded (cache ℕ (Unit {0})) constant parse id_of frames receiver

abbrev is_nine : ℕ → Bool
is_nine n = n == 9

unanswered_ends_example :
    (e : ℕ × FlashblocksReceiverError) × ((handle
        (cache ℕ (Unit {0}))
        constant
        parse
        id_of
        frames
        (connected (cache ℕ (Unit {0})) constant parse id_of 0 receiver)).0
      ≡ some e)
unanswered_ends_example =
    unanswered_ends (cache ℕ (Unit {0})) constant parse id_of is_nine 0 frames receiver
      (refl, (tt, (refl, (tt, (tt, tt))))) (inr (inr (inr (inr (inl (refl, omega arith))))))

abbrev hello : Message
hello = text (104 ∷ [])

abbrev upstream : WebsocketSubscriber constant {E = ℕ} 0
upstream = Subscriber.new constant 0 default_options

abbrev upstream_frames : List (ℕ × Subscriber.Event ℕ)
upstream_frames = (10, Subscriber.read (message hello)) ∷ (20, Subscriber.read (message close)) ∷ []

abbrev as_it_is : List ℕ → List ℕ
as_it_is bytes = bytes

abbrev with_pings : Args
with_pings = record args { client_ping_enabled = true }

abbrev always : ℕ → Bool
always n = true

-- One upstream with a connection that brings `hello`, and one that was not reached.
abbrev two_upstreams : List (List (Round ℕ))
two_upstreams =
    (connect (established 0 upstream_frames) false ∷ []) ∷ (connect (refused 1) false ∷ []) ∷ []

abbrev channel : List Message
channel = ping [] ∷ binary (104 ∷ []) ∷ []

abbrev client_events : List Registry.Event
client_events =
    broadcast (next (ping [])) true
    ∷ broadcast (next (binary (104 ∷ []))) true
    ∷ broadcast lagged true
    ∷ []

client_fed : Feed channel client_events
client_fed = some_message (some_message fallen_behind)

channel_merged :
    Merges (senders as_it_is always constant {E = ℕ} 0 with_pings two_upstreams (tick ∷ [])) channel
unfolding ping_task send_pings run connect_and_listen listen handle_message relay Subscriber.new
    subscriber_options
channel_merged =
    (binary (104 ∷ []) ∷ [], left (right nothing), ([], left nothing, ([], nothing, refl)))

merged_upstreams_example :
    (sent_pings : List Message) × (contents : List (List (List ℕ))) × ArePings sent_pings
    × AreFrom two_upstreams contents
    × Merges (sent_pings ∷ map (map (relay as_it_is false)) contents) (subscribe client_events).sent
merged_upstreams_example =
    merged_upstreams as_it_is always constant 0 with_pings two_upstreams (tick ∷ []) channel
      client_events channel_merged client_fed

refused_gauge_example :
    ((run constant {E = ℕ} 0 (unreachable (3 ∷ 4 ∷ [])) upstream).1.metrics.upstream_connections_up
      ≡ 0)
    × ((run constant {E = ℕ} 0
          (unreachable (3 ∷ 4 ∷ []))
          upstream).1.metrics.upstream_connections_down
        ≡ 2)
refused_gauge_example = refused_gauge constant 0 (3 ∷ 4 ∷ []) default_options
