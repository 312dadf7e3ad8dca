-- ===== src/Gateway/Channel.antt =====
-- src/gateway/OrderChannel.hpp: one queue of requests and one of events. Channels are shared between
-- a client and the server, so they stand in a store, by the address that `std::shared_ptr` holds.
use backtester_lab.Base.{ℕ, if◌then◌else◌, ◌==◌, nat_eq}
use backtester_lab.Gateway.Messages.{OrderRequest, OrderEvent}
use backtester_lab.Queue
use backtester_lab.Queue.{NonBlockingQueue, Pop}

pub record OrderChannel : Type 0 where
  pub requests : NonBlockingQueue OrderRequest
  pub events : NonBlockingQueue OrderEvent

unfoldable pub push_request : OrderRequest → OrderChannel → OrderChannel
push_request request c = record c { requests = Queue.push request c.requests }

unfoldable pub flush_requests : OrderChannel → OrderChannel
flush_requests c = record c { requests = Queue.flush c.requests }

unfoldable pub try_pop_request : OrderChannel → Pop OrderRequest × OrderChannel
try_pop_request c =
    let popped = Queue.try_pop c.requests in (popped.0, record c { requests = popped.1 })

unfoldable pub push_event : OrderEvent → OrderChannel → OrderChannel
push_event event c = record c { events = Queue.push event c.events }

unfoldable pub flush_events : OrderChannel → OrderChannel
flush_events c = record c { events = Queue.flush c.events }

unfoldable pub try_pop_event : OrderChannel → Pop OrderEvent × OrderChannel
try_pop_event c = let popped = Queue.try_pop c.events in (popped.0, record c { events = popped.1 })

abbrev pub Channels : Type 0
Channels = ℕ → OrderChannel

unfoldable pub update_channel : ℕ → OrderChannel → Channels → Channels
update_channel address channel channels a = if address == a then channel else channels a
