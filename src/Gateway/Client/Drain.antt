-- ===== src/Gateway/Client/Drain.antt =====
-- src/gateway/OrderGatewayClient.cpp: the events that `drainEvents` takes, and the callbacks that get
-- them.
use backtester_lab.Base.{
  ℕ, zero, suc, ◌<◌, ◌≡◌, refl, ap, subst, List, [], ◌∷◌, Option, none, some, arith, length,
  Option-cases, inl, inr,
}
use backtester_lab.Base.Int.{ℤ}
use backtester_lab.Queue.Fifo.{available, IsQueue, try_pop-Popped, try_pop-IsQueue}
use backtester_lab.Gateway.Messages.{OrderAckType, OrderRejectReason, OrderFields, OrderEvent}
use backtester_lab.Gateway.Channel.{OrderChannel, try_pop_event}
use backtester_lab.Gateway.Client.{Callbacks, dispatch_event, drain_events}
use Prim.Native.String.{String}

module _ {S : Type 0} (callbacks : Callbacks S) where
  -- What the callbacks make of a list of events: each event goes to the callback of its own kind, in
  -- the order of the list, and an event whose callback is not set is lost.
  pub data Received : List OrderEvent → S → S → Type 0 where
    nothing : (s : S) → Received [] s s
    ack :
        (f : OrderFields) (type : OrderAckType) (g : OrderFields → OrderAckType → S → S)
        {events : List OrderEvent} {s s' : S}
        → callbacks.on_ack ≡ some g
        → Received events (g f type s) s'
        → Received (OrderEvent.order_ack f type ∷ events) s s'
    lost_ack :
        (f : OrderFields) (type : OrderAckType) {events : List OrderEvent} {s s' : S}
        → callbacks.on_ack ≡ none
        → Received events s s'
        → Received (OrderEvent.order_ack f type ∷ events) s s'
    fill :
        (f : OrderFields) (price : ℤ) (n left : ℕ) (g : OrderFields → ℤ → ℕ → ℕ → S → S)
        {events : List OrderEvent} {s s' : S}
        → callbacks.on_fill ≡ some g
        → Received events (g f price n left s) s'
        → Received (OrderEvent.order_fill f price n left ∷ events) s s'
    lost_fill :
        (f : OrderFields) (price : ℤ) (n left : ℕ) {events : List OrderEvent} {s s' : S}
        → callbacks.on_fill ≡ none
        → Received events s s'
        → Received (OrderEvent.order_fill f price n left ∷ events) s s'
    reject :
        (f : OrderFields) (reason : OrderRejectReason) (text : String)
        (g : OrderFields → OrderRejectReason → String → S → S) {events : List OrderEvent} {s s' : S}
        → callbacks.on_reject ≡ some g
        → Received events (g f reason text s) s'
        → Received (OrderEvent.order_reject f reason text ∷ events) s s'
    lost_reject :
        (f : OrderFields) (reason : OrderRejectReason) (text : String) {events : List OrderEvent}
        {s s' : S}
        → callbacks.on_reject ≡ none
        → Received events s s'
        → Received (OrderEvent.order_reject f reason text ∷ events) s s'

  dispatch_event-Received :
      (event : OrderEvent) (events : List OrderEvent) (s s' : S)
      → Received events (dispatch_event callbacks event s) s'
      → Received (event ∷ events) s s'
  unfolding dispatch_event
  dispatch_event-Received (OrderEvent.order_ack f type) events s s' h =
      elim (Option-cases callbacks.on_ack) [
        | inl unset ↦
            lost_ack f type unset
              (subst (λ c. Received events (elim c [ none ↦ s | some g ↦ g f type s ]) s') unset h)
        | inr (g, set) ↦
            ack f type g set
              (subst (λ c. Received events (elim c [ none ↦ s | some g ↦ g f type s ]) s') set h)
      ]
  dispatch_event-Received (OrderEvent.order_fill f price n left) events s s' h =
      let after : Option (OrderFields → ℤ → ℕ → ℕ → S → S) → S =
        λ c. elim c [ none ↦ s | some g ↦ g f price n left s ] in
      elim (Option-cases callbacks.on_fill) [
        | inl unset ↦
            lost_fill f price n left unset (subst (λ c. Received events (after c) s') unset h)
        | inr (g, set) ↦ fill f price n left g set (subst (λ c. Received events (after c) s') set h)
      ]
  dispatch_event-Received (OrderEvent.order_reject f reason text) events s s' h =
      let after : Option (OrderFields → OrderRejectReason → String → S → S) → S =
        λ c. elim c [ none ↦ s | some g ↦ g f reason text s ] in
      elim (Option-cases callbacks.on_reject) [
        | inl unset ↦
            lost_reject f reason text unset (subst (λ c. Received events (after c) s') unset h)
        | inr (g, set) ↦
            reject f reason text g set (subst (λ c. Received events (after c) s') set h)
      ]

  -- With fuel for each visible event and the failing call the loop ends. It has then given every
  -- visible event to the callback of its kind, in the order in which the server pushed them. The
  -- queue is well-formed.
  pub drain_events-total :
      (fuel : ℕ) (channel : OrderChannel) (s : S)
      → IsQueue channel.events
      → length (available channel.events) < fuel
      → (channel' : OrderChannel) × (s' : S) × (drain_events callbacks fuel channel s
          ≡ some (length (available channel.events), (channel', s')))
        × Received (available channel.events) s s'
        × (available channel'.events ≡ [])
        × (channel'.requests ≡ channel.requests)
  unfolding drain_events try_pop_event
  drain_events-total zero channel s v h = absurd (omega arith)
  drain_events-total (suc fuel) channel s v h = elim (try_pop-Popped channel.events v) [
    | inl (none_left, failed, none_after) ↦ (
      (try_pop_event channel).1,
      s,
      rw (failed, drain_events, none_left) refl,
      rw none_left (nothing s),
      none_after,
      refl,
    )
    | inr (event, first, taken) ↦
        let (channel', s', run, received, done, same) =
          drain_events-total fuel (try_pop_event channel).1 (dispatch_event callbacks event s)
            (try_pop-IsQueue channel.events v) (omega (arith, ap length first)) in
        (
          channel',
          s',
          rw (taken, drain_events, run, first) refl,
          rw first (dispatch_event-Received event _ s s' received),
          done,
          same,
        )
  ]
