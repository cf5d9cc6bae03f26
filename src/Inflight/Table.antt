-- ===== src/Inflight/Table.antt =====
-- The outbound table as a finite map from packet identifiers: what storing and erasing an entry do to
-- what a caller finds.
use net_burner_mqtt_broker.Base.{
  ℕ, zero, suc, ◌+◌, ◌<◌, ◌≡◌, ◌≢◌, refl, arith, ap, true, false, ◌||◌, ◌&&◌, not, ◌==◌,
  if◌then◌else◌, List, [], ◌∷◌, length, Option, none, some, set, Option-cases, Bool-cases, inl, inr,
}
use net_burner_mqtt_broker.Inflight.Ids.{member, distinct}
use net_burner_mqtt_broker.Inflight.PacketId.{used_ids}
use net_burner_mqtt_broker.Inflight.Outbound.{
  OutboundInflightEntry, blank_entry, entry_at, count, holds, find, store_first,
}
use mathlib.Core.Option

-- What a caller reads through the pointer that `find` answers.
unfoldable pub held : ℕ → List OutboundInflightEntry → Option OutboundInflightEntry
unfolding find
held id es = Option.map (entry_at es) (find id es)

pub held-step :
    (id : ℕ) (e : OutboundInflightEntry) (es : List OutboundInflightEntry)
    → held id (e ∷ es) ≡ (if holds id e then some e else held id es)
unfolding held find
held-step id e es = elim (Option-cases (find id es)) [
  | inl n ↦ ground (arith, n)
  | inr (i, n) ↦ ground (arith, n)
]

-- `es'` is `es` with `new` in it as well.
pub record Stored (new : OutboundInflightEntry) (es es' : List OutboundInflightEntry) : Type 0 where
  pub size : length es' ≡ length es
  pub one_more : count es' ≡ count es + 1
  pub ids : (x : ℕ) → member x (used_ids es') ≡ (x == new.packet_id || member x (used_ids es))
  pub apart :
      distinct (used_ids es') ≡ (not (member new.packet_id (used_ids es)) && distinct (used_ids es))
  pub itself : held new.packet_id es ≡ none → held new.packet_id es' ≡ some new
  pub others : (x : ℕ) → x ≢ new.packet_id → held x es' ≡ held x es

store_here :
    (new e : OutboundInflightEntry) (es : List OutboundInflightEntry)
    → new.in_use ≡ true
    → e.in_use ≡ false
    → Stored new (e ∷ es) (new ∷ es)
unfolding count used_ids member distinct
store_here new e es live idle = record {
  size = refl;
  one_more = ground arith;
  ids = λ x. ground arith;
  apart = ground arith;
  itself = λ h. ground (arith, held-step new.packet_id new es);
  others = λ x h. ground (arith, held-step x new es, held-step x e es);
}

store_behind :
    (new e : OutboundInflightEntry) (es es' : List OutboundInflightEntry)
    → Stored new es es'
    → Stored new (e ∷ es) (e ∷ es')
unfolding count used_ids member distinct
store_behind new e es es' s = record {
  size = ap suc s.size;
  one_more = ground (arith, s.one_more);
  ids = λ x. ground (arith, s.ids x);
  apart = ground (arith, s.apart, s.ids e.packet_id);
  itself =
      λ h. ground (arith, s.itself, held-step new.packet_id e es, held-step new.packet_id e es');
  others = λ x h. ground (arith, s.others x h, held-step x e es, held-step x e es');
}

pub store_first-Stored :
    (new : OutboundInflightEntry) (es : List OutboundInflightEntry)
    → new.in_use ≡ true
    → count es < length es
    → (es' : List OutboundInflightEntry) × (store_first new es ≡ some es') × Stored new es es'
unfolding store_first count
store_first-Stored new [] live room = absurd (omega arith)
store_first-Stored new (e ∷ es) live room = elim (Bool-cases e.in_use) [
  | inr idle ↦ (new ∷ es, rw idle refl, store_here new e es live idle)
  | inl busy ↦
      let (es', q, s) = store_first-Stored new es live (ground arith) in
      (e ∷ es', rw (busy, q) refl, store_behind new e es es' s)
]

-- `es'` is `es` without the entry of `id`.
pub record Erased (id : ℕ) (es es' : List OutboundInflightEntry) : Type 0 where
  pub size : length es' ≡ length es
  pub one_less : count es' + 1 ≡ count es
  pub ids : (x : ℕ) → x ≢ id → member x (used_ids es') ≡ member x (used_ids es)
  pub fewer : (x : ℕ) → member x (used_ids es') ≡ true → member x (used_ids es) ≡ true
  pub apart : distinct (used_ids es) ≡ true → distinct (used_ids es') ≡ true
  pub itself : distinct (used_ids es) ≡ true → member id (used_ids es') ≡ false
  pub others : (x : ℕ) → x ≢ id → held x es' ≡ held x es

erase_here :
    (id : ℕ) (e : OutboundInflightEntry) (es : List OutboundInflightEntry)
    → holds id e ≡ true
    → Erased id (e ∷ es) (blank_entry ∷ es)
unfolding count used_ids member distinct
erase_here id e es h = record {
  size = refl;
  one_less = ground arith;
  ids = λ x k. ground arith;
  fewer = λ x k. ground arith;
  apart = λ k. ground arith;
  itself = λ k. ground arith;
  others = λ x k. ground (arith, held-step x blank_entry es, held-step x e es);
}

erase_behind :
    (id : ℕ) (e : OutboundInflightEntry) (es es' : List OutboundInflightEntry)
    → holds id e ≡ false
    → Erased id es es'
    → Erased id (e ∷ es) (e ∷ es')
unfolding count used_ids member distinct
erase_behind id e es es' h s = record {
  size = ap suc s.size;
  one_less = ground (arith, s.one_less);
  ids = λ x k. ground (arith, s.ids x k);
  fewer = λ x k. ground (arith, s.fewer x);
  apart = λ k. ground (arith, s.apart, s.fewer e.packet_id);
  itself = λ k. ground (arith, s.itself);
  others = λ x k. ground (arith, s.others x k, held-step x e es, held-step x e es');
}

pub erase-Erased :
    (id i : ℕ) (es : List OutboundInflightEntry)
    → find id es ≡ some i
    → Erased id es (set es i blank_entry)
unfolding find
erase-Erased id i [] h = cc
erase-Erased id zero (e ∷ es) h = erase_here id e es (elim (Option-cases (find id es)) [
  | inl n ↦ ground (arith, n)
  | inr (j, n) ↦ ground (arith, n)
])
erase-Erased id (suc i) (e ∷ es) h = elim (Option-cases (find id es)) [
  | inl n ↦ absurd (ground (arith, n))
  | inr (j, n) ↦
      erase_behind id e es (set es i blank_entry) (ground (arith, n))
        (erase-Erased id i es (ground (arith, n)))
]
