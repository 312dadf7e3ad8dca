-- ===== src/Gateway/Server/Drain.antt =====
-- src/gateway/OrderGatewayServer.cpp: `drainRequests` and `flushEvents`.
use backtester_lab.Base.{
  ℕ, zero, suc, ◌<◌, ◌≡◌, ◌≢◌, refl, sym, ap, ◌∙◌, subst, List, [], ◌∷◌, ◌++◌, Option, none, some,
  arith, length, nat_eq, nat_beq_iff, beq_refl, inl, inr,
}
use backtester_lab.Map.{find}
use backtester_lab.Queue
use backtester_lab.Queue.{NonBlockingQueue, Pop, empty, out_of_range, item}
use backtester_lab.Queue.Fifo.{available, IsQueue, try_pop-Popped, try_pop-IsQueue}
use backtester_lab.Gateway.Messages.{OrderRequest}
use backtester_lab.Gateway.Channel.{
  OrderChannel, Channels, try_pop_request, flush_events, update_channel,
}
use backtester_lab.Gateway.Types.{OrderGatewaySession, OrderGatewayTransition, Gateway}
use backtester_lab.Gateway.Server.{process_request}
use backtester_lab.Gateway.Server.Invariant.{AllOrders, process_request-AllOrders}
use backtester_lab.Gateway.Server.Events.{process_request-Answers}

-- `session.channel->tryPopRequest()`
unfoldable pub pop_request : OrderGatewaySession → Gateway → Pop OrderRequest × Gateway
pop_request session g =
    let popped = try_pop_request (g.channels session.channel) in
    (popped.0, record g { channels = update_channel session.channel popped.1 g.channels })

-- The inner loop, for one session: the transitions in order. `none` means that the fuel ran out.
unfoldable pub drain_session :
    ℕ → OrderGatewaySession → Gateway → Option (List OrderGatewayTransition × Gateway)
unfolding pop_request
drain_session zero session g = none
drain_session (suc fuel) session g =
    let popped = pop_request session g in
    elim popped.0 [
      | empty ↦ some ([], popped.1)
      | out_of_range ↦ none
      | item request ↦
          let answer = process_request session request popped.1 in
          elim (drain_session fuel session answer.1) [
            | none ↦ none
            | some rest ↦ some (answer.0 ∷ rest.0, rest.1)
          ]
    ]

-- The outer loop, over the engines in the order of their registration.
unfoldable pub drain_engines : ℕ → List ℕ → Gateway → Option (List OrderGatewayTransition × Gateway)
unfolding drain_session
drain_engines fuel [] g = some ([], g)
drain_engines fuel (engine ∷ engines) g = elim (find engine g.sessions_by_engine) [
  | none ↦ drain_engines fuel engines g
  | some session ↦ elim (drain_session fuel session g) [
    | none ↦ none
    | some first ↦ elim (drain_engines fuel engines first.1) [
      | none ↦ none
      | some rest ↦ some (first.0 ++ rest.0, rest.1)
    ]
  ]
]

unfoldable pub drain_requests : ℕ → Gateway → Option (List OrderGatewayTransition × Gateway)
unfolding drain_engines
drain_requests fuel g = drain_engines fuel g.engine_order g

unfoldable pub flush_engines : List ℕ → Gateway → Gateway
flush_engines [] g = g
flush_engines (engine ∷ engines) g = elim (find engine g.sessions_by_engine) [
  | none ↦ flush_engines engines g
  | some session ↦ flush_engines engines (record g {
    channels =
        update_channel session.channel (flush_events (g.channels session.channel)) g.channels;
  })
]

unfoldable pub flush_all_events : Gateway → Gateway
unfolding flush_engines
flush_all_events g = flush_engines g.engine_order g

-- The requests of a session's channel.
abbrev pub requests_of : OrderGatewaySession → Gateway → NonBlockingQueue OrderRequest
requests_of session g = (g.channels session.channel).requests

update_channel_self :
    (a : ℕ) (c : OrderChannel) (channels : Channels) → update_channel a c channels a ≡ c
unfolding update_channel
update_channel_self a c channels = rw (beq_refl a) refl

requests-pop_request :
    (session : OrderGatewaySession) (g : Gateway)
    → requests_of session (pop_request session g).1 ≡ (Queue.try_pop (requests_of session g)).1
unfolding pop_request try_pop_request
requests-pop_request session g =
    ap (λ c. c.requests) (update_channel_self session.channel _ g.channels)

-- What a pop of the session's queue gives the session.
pop_request-try_pop :
    (session : OrderGatewaySession) (g : Gateway)
    → (try_pop_request (g.channels session.channel)).0 ≡ (Queue.try_pop (requests_of session g)).0
unfolding try_pop_request
pop_request-try_pop session g = refl

drain_session-item :
    (fuel : ℕ) (session : OrderGatewaySession) (g : Gateway) (request : OrderRequest)
    (ts : List OrderGatewayTransition) (g' : Gateway)
    → (Queue.try_pop (requests_of session g)).0 ≡ item request
    → (let answer = process_request session request (pop_request session g).1 in
        drain_session fuel session answer.1 ≡ some (ts, g')
        → drain_session (suc fuel) session g ≡ some (answer.0 ∷ ts, g'))
unfolding drain_session
drain_session-item fuel session g request ts g' taken run =
    rw (pop_request-try_pop session g ∙ taken, drain_session, run) refl

-- Two servers that differ at most in the requests of one channel.
pub record TakesFrom (channel : ℕ) (before after : Gateway) : Type 0 where
  pub orders : after.orders_by_key ≡ before.orders_by_key
  pub sessions : after.sessions_by_engine ≡ before.sessions_by_engine
  pub engines : after.engine_order ≡ before.engine_order
  pub events : (after.channels channel).events ≡ (before.channels channel).events
  pub others : (c : ℕ) → channel ≢ c → after.channels c ≡ before.channels c

-- The server answers requests one after the other, each on the orders and channels that the answer
-- before it left, with the transitions in the same order. Between two answers it only takes
-- requests from the session's channel.
pub data AnswersAll (session : OrderGatewaySession)
    : List OrderRequest → Gateway → List OrderGatewayTransition → Gateway → Type 0 where
  done : {g g' : Gateway} → TakesFrom session.channel g g' → AnswersAll session [] g [] g'
  next :
      {request : OrderRequest} {requests : List OrderRequest} {g g1 g2 g' : Gateway}
      {t : OrderGatewayTransition} {ts : List OrderGatewayTransition}
      → TakesFrom session.channel g g1
      → process_request session request g1 ≡ (t, g2)
      → AnswersAll session requests g2 ts g'
      → AnswersAll session (request ∷ requests) g (t ∷ ts) g'

pop_request-TakesFrom :
    (session : OrderGatewaySession) (g : Gateway)
    → TakesFrom session.channel g (pop_request session g).1
unfolding pop_request try_pop_request update_channel
pop_request-TakesFrom session g = record {
  orders = refl;
  sessions = refl;
  engines = refl;
  events = rw (beq_refl session.channel) refl;
  others = λ c other. ground (arith, nat_beq_iff session.channel c);
}

-- With fuel for each visible request and the failing call, the loop over a session ends. It has
-- then answered every visible request in order, each on the state that the answer before it left, and
-- left the stored orders valid. The queue is well-formed, and the stored orders are valid before.
pub drain_session-total :
    (fuel : ℕ) (session : OrderGatewaySession) (g : Gateway)
    → IsQueue (requests_of session g)
    → AllOrders g.orders_by_key
    → length (available (requests_of session g)) < fuel
    → (ts : List OrderGatewayTransition) × (g' : Gateway) × (drain_session fuel session g
        ≡ some (ts, g'))
      × AnswersAll session (available (requests_of session g)) g ts g'
      × (available (requests_of session g') ≡ [])
      × AllOrders g'.orders_by_key
unfolding drain_session
drain_session-total zero session g v orders h = absurd (omega arith)
drain_session-total (suc fuel) session g v orders h =
    elim (try_pop-Popped (requests_of session g) v) [
      | inl (none_left, failed, none_after) ↦ (
        [],
        (pop_request session g).1,
        rw (pop_request-try_pop session g ∙ failed, drain_session) refl,
        rw none_left (done (pop_request-TakesFrom session g)),
        rw (requests-pop_request session g) none_after,
        orders,
      )
      | inr (request, first, taken) ↦
          let g1 : Gateway = (pop_request session g).1 in
          let answer = process_request session request g1 in
          let (event, same, sends) = process_request-Answers session request g1 orders in
          let keeps : requests_of session answer.1 ≡ (Queue.try_pop (requests_of session g)).1 =
            sends.requests ∙ requests-pop_request session g in
          let (ts, g', run, answered, none_left, after) =
            drain_session-total fuel session answer.1
              (subst IsQueue (sym keeps) (try_pop-IsQueue (requests_of session g) v))
              (process_request-AllOrders session request g1 orders)
              (rw keeps (omega (arith, ap length first))) in
          (
            answer.0 ∷ ts,
            g',
            drain_session-item fuel session g request ts g' taken run,
            subst (λ l. AnswersAll session l g (answer.0 ∷ ts) g') (sym first)
                (next (pop_request-TakesFrom session g) refl
                  (subst (λ q. AnswersAll session (available q) answer.1 ts g') keeps answered)),
            none_left,
            after,
          )
    ]
