-- ===== src/Broker/Deadlines.antt =====
-- Deadlines of a session that goes offline, and what is left of a message's expiry interval
-- (libs/mqtt_broker/src/broker.cpp).
use net_burner_mqtt_broker.Base.{
  ℕ, ◌+◌, ◌-◌, ◌≤◌, ◌<◌, ◌≡◌, refl, arith, ap, true, false, not, leb, ◌==◌, ◌&&◌, if◌then◌else◌,
  length, min, Bool-cases, inl, inr, ◌⊎◌, get_elem?-set_self,
}
use net_burner_mqtt_broker.Delivery.{MessageHandle}
use net_burner_mqtt_broker.MessagePool.{expiry_interval, publish_tick}
use net_burner_mqtt_broker.Broker.{
  Broker, SessionRecord, tick_none, is_offline, offline, fresh_session,
}
use net_burner_mqtt_broker.Broker.State.{session_at, put_session}
use net_burner_mqtt_broker.Broker.Sessions.{Router, deadline, will_deadline, begin_offline_session}
use net_burner_mqtt_broker.Broker.Messages.{
  elapsed, remaining_expiry, message_expired, message_expiry_state,
}
use mathlib.Core.Option

pub session_at-put :
    {W : Type 0} (b : Broker W) (i : ℕ) (s : SessionRecord)
    → i < length b.sessions
    → session_at (put_session b i s) i ≡ s
session_at-put b i s h =
    ap (λ o. Option.get_or o (fresh_session i)) (get_elem?-set_self b.sessions i s h)

-- The interval with which a session is left: the override, or its own.
abbrev pub expiry_in_effect : SessionRecord → ℕ → ℕ
expiry_in_effect s expiry_override =
    if not (expiry_override == 0xffffffff) then expiry_override else s.session_expiry_interval

-- A deadline is that of the interval, or there is none where the tick counter does not reach so far.
abbrev pub InTime : ℕ → ℕ → ℕ → Type 0
InTime now interval d =
    ((now + interval < tick_none) × (d ≡ now + interval))
    ⊎ ((tick_none ≤ now + interval) × (d ≡ tick_none))

deadline-InTime : (now interval : ℕ) → now ≤ tick_none → InTime now interval (deadline now interval)
deadline-InTime now interval h = elim (Bool-cases (leb (tick_none - now) interval)) [
  | inl e ↦ rw e (inr (ground (arith, e), refl))
  | inr e ↦ rw e (inl (ground (arith, e), refl))
]

-- A will whose delay is longer than the expiry interval counts with that one.
will_deadline-InTime :
    (now expiry delay : ℕ)
    → now ≤ tick_none
    → InTime now (min delay expiry) (will_deadline now expiry delay)
unfolding will_deadline
will_deadline-InTime now expiry delay h = elim (Bool-cases (leb expiry delay)) [
  | inl long ↦ elim (Bool-cases (leb (tick_none - now) expiry)) [
    | inl never ↦
        let beyond : leb (tick_none - now) delay ≡ true = ground (arith, long, never) in
        rw (long, never, beyond) (inr (ground (arith, long, never), refl))
    | inr ends ↦
        let whole : min delay expiry ≡ expiry = ground (arith, long) in
        rw (long, ends, whole) (inl (ground (arith, ends), refl))
  ]
  | inr short ↦
      let own : min delay expiry ≡ delay = ground (arith, short) in
      rw (short, own) (deadline-InTime now delay h)
]

will_deadline_bounds :
    (now expiry delay : ℕ)
    → now ≤ tick_none
    → (now ≤ will_deadline now expiry delay)
      × (will_deadline now expiry delay ≤ deadline now expiry)
unfolding will_deadline
will_deadline_bounds now expiry delay h = (ground arith, ground arith)

-- A session with a will that is not suppressed, and left with an expiry interval above 0, is offline
-- from then on. Its deadline is the end of that interval, or none where the tick counter does not
-- reach so far; the will fires after its delay or at the end of the interval, whichever is earlier,
-- or not, likewise; so it fires no earlier than now and no later than the session expires.
pub begin_offline_session-InTime :
    {W : Type 0} (route : Router W) (b : Broker W) (i expiry_override : ℕ)
    → i < length b.sessions
    → b.current_tick ≤ tick_none
    → (expiry_in_effect (session_at b i) expiry_override == 0) ≡ false
    → (not (session_at b i).suppress_will && (session_at b i).will.valid) ≡ true
    → let left = session_at (begin_offline_session route b i expiry_override) i in
      (is_offline left.state ≡ true)
      × InTime b.current_tick
          (expiry_in_effect (session_at b i) expiry_override)
          left.session_expiry_deadline_tick
      × InTime b.current_tick
          (min
            (session_at b i).will_delay_interval
            (expiry_in_effect (session_at b i) expiry_override))
          left.will_fire_deadline_tick
      × (b.current_tick ≤ left.will_fire_deadline_tick)
      × (left.will_fire_deadline_tick ≤ left.session_expiry_deadline_tick)
unfolding begin_offline_session
begin_offline_session-InTime route b i expiry_override inside word lasts armed =
    let s = session_at b i in
    let expiry = expiry_in_effect s expiry_override in
    let bounds = will_deadline_bounds b.current_tick expiry s.will_delay_interval word in
    let left : SessionRecord = record s {
      state = offline;
      session_expiry_deadline_tick = deadline b.current_tick expiry;
      will_fire_deadline_tick =
          if not s.suppress_will && s.will.valid
          then will_deadline b.current_tick expiry s.will_delay_interval
          else s.will_fire_deadline_tick;
    } in
    rw (begin_offline_session, lasts, session_at-put b i left inside)
      (
        refl,
        deadline-InTime b.current_tick expiry word,
        rw armed (will_deadline-InTime b.current_tick expiry s.will_delay_interval word),
        rw armed bounds.0,
        rw armed bounds.1,
      )

-- What is forwarded as a message's expiry interval is at least 1 and at most the interval that it was
-- published with; while the message has not expired it is the interval less the seconds that have
-- passed, and 1 from then on.
pub message_expiry_state_bounds :
    {W : Type 0} (b : Broker W) (msg : MessageHandle)
    → 0 < expiry_interval b.msg_pool msg
    → let interval = expiry_interval b.msg_pool msg in
      let passed = elapsed b.current_tick (publish_tick b.msg_pool msg) in
      let (has_expiry, remaining) = message_expiry_state b msg in
      (has_expiry ≡ true)
      × (1 ≤ remaining)
      × (remaining ≤ interval)
      × (remaining ≡ (if message_expired b msg then 1 else interval - passed))
unfolding message_expiry_state message_expired remaining_expiry
message_expiry_state_bounds b msg pos = (ground arith, ground arith, ground arith, ground arith)
