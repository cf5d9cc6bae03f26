-- ===== src/Broker/Ending.antt =====
-- The end of a session makes its handle stale (libs/mqtt_broker/src/broker.cpp).
use net_burner_mqtt_broker.Base.{
  ℕ, zero, suc, ◌<◌, ◌≡◌, refl, arith, ap, ◌∙◌, true, false, leb, not, ◌&&◌, Bool, ◌==◌, ==_iff,
  if◌then◌else◌, none, some, length, Bool-cases, Option-cases, inl, inr, length-set,
}
use net_burner_mqtt_broker.MessagePool.{msg_valid}
use net_burner_mqtt_broker.Queue.Offline
use net_burner_mqtt_broker.Trie.Slots.{unsubscribe_all}
use net_burner_mqtt_broker.Broker.Limits.{max_tcp_clients}
use net_burner_mqtt_broker.Broker.{
  Broker, SessionHandle, SessionRecord, no_will, empty_state, session_handle_valid, is_empty_state,
}
use net_burner_mqtt_broker.Broker.State.{session_at, put_session, offline_at, session_record}
use net_burner_mqtt_broker.Broker.Sessions.{
  Router, purge_offline, release_will, clear_session_qos_state, clear_subscriptions, clear_messages,
  disarm, clear_session_state, retire_session, end_session, next_self, publish_stored_will,
  begin_offline_session,
}
use net_burner_mqtt_broker.Broker.Deadlines.{expiry_in_effect, session_at-put}

next_self-differs :
    (h : SessionHandle) → h.generation < 65536 → ((next_self h).generation == h.generation) ≡ false
next_self-differs h word = ground arith

module _ {W : Type 0} where
  purge_offline-sessions :
      (fuel : ℕ) (b : Broker W) (i : ℕ) → (purge_offline fuel b i).sessions ≡ b.sessions
  unfolding purge_offline
  purge_offline-sessions zero b i = refl
  purge_offline-sessions (suc fuel) b i = elim (Option-cases (Offline.peek (offline_at b i))) [
    | inl e ↦ rw (purge_offline, e) refl
    | inr (pd, e) ↦ rw (purge_offline, e) (purge_offline-sessions fuel _ i)
  ]

  clear_session_qos_state-sessions :
      (b : Broker W) (i : ℕ) → (clear_session_qos_state b i).sessions ≡ b.sessions
  unfolding clear_session_qos_state
  clear_session_qos_state-sessions b i = elim (Bool-cases (leb max_tcp_clients i)) [
    | inl e ↦ rw (clear_session_qos_state, e) refl
    | inr e ↦ rw (clear_session_qos_state, e) refl
  ]

  -- The session `i` of `c` has the handle that it has in `b`, and the arrays are equally long.
  abbrev SameSelf : Broker W → Broker W → ℕ → Type 0
  SameSelf b c i =
      ((session_at c i).self ≡ (session_at b i).self) × (length c.sessions ≡ length b.sessions)

  put-SameSelf :
      (b : Broker W) (i : ℕ) (s : SessionRecord)
      → i < length b.sessions
      → s.self ≡ (session_at b i).self
      → SameSelf b (put_session b i s) i
  put-SameSelf b i s h e =
      (ap (λ r. r.self) (session_at-put b i s h) ∙ e, length-set b.sessions i s)

  release_will-SameSelf :
      (b : Broker W) (i : ℕ) → i < length b.sessions → SameSelf b (release_will b i) i
  unfolding release_will
  release_will-SameSelf b i h = elim (Bool-cases (session_at b i).will.valid) [
    | inr none_left ↦ rw (release_will, none_left) (refl, refl)
    | inl held ↦ elim (Bool-cases (msg_valid b.msg_pool (session_at b i).will.payload)) [
      | inl live ↦
          rw (release_will, held, live)
            (put-SameSelf b i (record (session_at b i) { will = no_will }) h refl)
      | inr gone ↦
          rw (release_will, held, gone)
            (put-SameSelf b i (record (session_at b i) { will = no_will }) h refl)
    ]
  ]

  same_sessions :
      (b c d : Broker W) (i : ℕ) → d.sessions ≡ c.sessions → SameSelf b c i → SameSelf b d i
  same_sessions b c d i e h = rw e h

  then_same : (b c d : Broker W) (i : ℕ) → SameSelf b c i → SameSelf c d i → SameSelf b d i
  then_same b c d i h k = (k.0 ∙ h.0, k.1 ∙ h.1)

  clear_subscriptions-SameSelf :
      (b : Broker W) (i : ℕ) → i < length b.sessions → SameSelf b (clear_subscriptions b i) i
  unfolding clear_subscriptions
  clear_subscriptions-SameSelf b i h =
      put-SameSelf (record b { topic_trie = unsubscribe_all b.topic_trie i }) i
        (record (session_at b i) { has_subscription_state = false }) h refl

  disarm-SameSelf : (b : Broker W) (i : ℕ) → i < length b.sessions → SameSelf b (disarm b i) i
  unfolding disarm
  disarm-SameSelf b i h = put-SameSelf b i _ h refl

  clear_messages-SameSelf :
      (b : Broker W) (i : ℕ) → i < length b.sessions → SameSelf b (clear_messages b i) i
  unfolding clear_messages
  clear_messages-SameSelf b i h =
      same_sessions b (release_will purged i) (clear_messages b i) i
        (clear_session_qos_state-sessions (release_will purged i) i)
        (then_same b purged (release_will purged i) i after
          (release_will-SameSelf purged i (omega (arith, after.1, h))))
    where
      purged : Broker W
      purged = purge_offline (offline_at b i).count b i

      after : SameSelf b purged i
      after =
          same_sessions b b purged i (purge_offline-sessions (offline_at b i).count b i)
            (refl, refl)

  clear_session_state-parts :
      (b : Broker W) (i : ℕ)
      → leb max_tcp_clients i ≡ false
      → clear_session_state b i true ≡ disarm (clear_messages (clear_subscriptions b i) i) i
  unfolding clear_session_state
  clear_session_state-parts b i fits = rw (clear_session_state, fits) refl

  clear_session_state-SameSelf :
      (b : Broker W) (i : ℕ)
      → i < max_tcp_clients
      → i < length b.sessions
      → SameSelf b (clear_session_state b i true) i
  clear_session_state-SameSelf b i small h = rw (clear_session_state-parts b i (ground arith)) (
      then_same b (clear_messages first i) (disarm (clear_messages first i) i) i upto
        (disarm-SameSelf (clear_messages first i) i (omega (arith, upto.1, h))))
    where
      first : Broker W
      first = clear_subscriptions b i

      subs : SameSelf b first i
      subs = clear_subscriptions-SameSelf b i h

      upto : SameSelf b (clear_messages first i) i
      upto =
          then_same b first (clear_messages first i) i subs
            (clear_messages-SameSelf first i (omega (arith, subs.1, h)))

  -- `self` and the state of a slot that has been retired.
  retire_session-self :
      (b : Broker W) (i : ℕ)
      → i < length b.sessions
      → ((session_at (retire_session b i) i).self ≡ next_self (session_at b i).self)
        × ((session_at (retire_session b i) i).state ≡ empty_state)
  unfolding retire_session
  retire_session-self b i h =
      let put = session_at-put b i _ h in (ap (λ s. s.self) put, ap (λ s. s.state) put)

  -- The handle leads to a session exactly where the slot still has its generation.
  session_record_current :
      (b : Broker W) (i g : ℕ)
      → i < max_tcp_clients
      → session_record b (record { slot = i; generation = g })
        ≡ (if (session_at b i).self.generation == g then some i else none)
  unfolding session_record session_handle_valid
  session_record_current b i g small = ground arith

  -- The broker when the will of the session has been published, if it is to be.
  abbrev pub will_given : Router W → Broker W → ℕ → Bool → Broker W
  will_given route b i publish_will_now =
      if publish_will_now && not (session_at b i).suppress_will
      then publish_stored_will route b i
      else b

  end_session_parts :
      (route : Router W) (b : Broker W) (i : ℕ) (publish_will_now : Bool)
      → i < max_tcp_clients
      → end_session route b i publish_will_now
        ≡ retire_session (clear_session_state (will_given route b i publish_will_now) i true) i
  unfolding end_session
  end_session_parts route b i publish_will_now small =
      let fits : leb max_tcp_clients i ≡ false = ground arith in rw (end_session, fits) refl

  -- The slot `i` is empty in `ended`, and the handle that led to its session in `b` leads nowhere.
  abbrev pub LeadsNowhere : Broker W → Broker W → ℕ → Type 0
  LeadsNowhere b ended i =
      (is_empty_state (session_at ended i).state ≡ true)
      × (session_record b (session_at b i).self ≡ some i)
      × (session_record ended (session_at b i).self ≡ none)

  -- A session that ends, in a slot below the limit that its handle names with a 16-bit generation,
  -- leaves the slot empty, and the handle that it had leads to no session any more, whether or not it
  -- has a will and publishes it; if, where the will is published, the session still stands in its slot
  -- with its handle when that is done.
  pub end_session-stale :
      (route : Router W) (b : Broker W) (i g : ℕ) (publish_will_now : Bool)
      → i < max_tcp_clients
      → (session_at b i).self ≡ record { slot = i; generation = g }
      → g < 65536
      → i < length (will_given route b i publish_will_now).sessions
      → (session_at (will_given route b i publish_will_now) i).self
        ≡ record { slot = i; generation = g }
      → LeadsNowhere b (end_session route b i publish_will_now) i
  end_session-stale route b i g publish_will_now small own word inside still =
      let told = will_given route b i publish_will_now in
      let same = clear_session_state-SameSelf told i small inside in
      let c = clear_session_state told i true in
      let (self, state) = retire_session-self c i (omega (arith, same.1, inside)) in
      let generation : (session_at (retire_session c i) i).self
          ≡ next_self (record { slot = i; generation = g }) =
        self ∙ ap next_self (same.0 ∙ still) in
      rw
        (
          end_session_parts route b i publish_will_now small,
          own,
          session_record_current b i g small,
          session_record_current (retire_session c i) i g small,
          own,
          generation,
          state,
          next_self-differs (record { slot = i; generation = g }) word,
        )
        (refl, ground arith, refl)

  -- So it is where a session goes offline that does not last: its will is published if it is not
  -- suppressed.
  pub begin_offline_session-stale :
      (route : Router W) (b : Broker W) (i g expiry_override : ℕ)
      → i < max_tcp_clients
      → (session_at b i).self ≡ record { slot = i; generation = g }
      → g < 65536
      → expiry_in_effect (session_at b i) expiry_override ≡ 0
      → i < length (will_given route b i (not (session_at b i).suppress_will)).sessions
      → (session_at (will_given route b i (not (session_at b i).suppress_will)) i).self
        ≡ record { slot = i; generation = g }
      → LeadsNowhere b (begin_offline_session route b i expiry_override) i
  unfolding begin_offline_session
  begin_offline_session-stale route b i g expiry_override small own word ends inside still =
      let slot : (session_at b i).self.slot ≡ i = ap (λ h. h.slot) own in
      let none_left : (expiry_in_effect (session_at b i) expiry_override == 0) ≡ true =
        (==_iff _ _).1 ends in
      rw (begin_offline_session, none_left, slot)
        (end_session-stale route b i g (not (session_at b i).suppress_will) small own word inside
          still)
