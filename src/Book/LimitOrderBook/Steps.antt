-- ===== src/Book/LimitOrderBook/Steps.antt =====
-- What a book promises of its resting orders: one step on lookups by order id, with no price levels
-- and no map. An Add or a Modify with a full state is an upsert.
use backtester_lab.Base.{ℕ, ◌-◌, ◌||◌, Option, none, some, if◌then◌else◌, ◌==◌, leb, nat_eq}
use backtester_lab.Domain.{Action, MarketDataEvent, has_valid_resting_state}
use backtester_lab.Book.LimitOrderBook.{RestingOrder, order_of}

abbrev pub Lookup : Type 0
Lookup = ℕ → Option RestingOrder

unfoldable pub upsert : MarketDataEvent → Lookup → Lookup
unfolding has_valid_resting_state
upsert event look k =
    if has_valid_resting_state event
    then (if event.order_id == k then some (order_of event) else look k)
    else look k

-- What a cancel leaves of an order. Size 0 cancels all of it.
unfoldable pub reduce : MarketDataEvent → Option RestingOrder → Option RestingOrder
reduce event none = none
reduce event (some order) =
    if event.size == 0 || leb order.size event.size
    then none
    else some (record order { size = order.size - event.size })

unfoldable pub step_on : Action → MarketDataEvent → Lookup → Lookup
unfolding upsert reduce
step_on Action.add event look k = upsert event look k
step_on Action.modify event look k = upsert event look k
step_on Action.cancel event look k = if event.order_id == k then reduce event (look k) else look k
step_on Action.clear event look k = none
step_on Action.trade event look k = look k
step_on Action.fill event look k = look k
step_on Action.none event look k = look k

unfoldable pub step : MarketDataEvent → Lookup → Lookup
unfolding step_on
step event look k = step_on event.action event look k
