-- ===== src/Inflight/PacketId.antt =====
-- Packet identifiers for new deliveries: the search of `next_packet_id` and how it ends.
use net_burner_mqtt_broker.Base.{
  ℕ, zero, suc, ◌+◌, ◌≤◌, ◌<◌, ◌≡◌, refl, arith, true, ◌==◌, if◌then◌else◌, List, [], ◌∷◌, length,
  none, u16, Option-cases, inl, inr, ◌⊎◌,
}
use net_burner_mqtt_broker.Inflight.Ids.{member, without, length-without, member-without}
use net_burner_mqtt_broker.Inflight.Outbound.{
  SessionOutboundInflight, OutboundInflightEntry, find, found, try_ids, next_packet_id,
}

-- The packet identifiers in use.
unfoldable pub used_ids : List OutboundInflightEntry → List ℕ
used_ids [] = []
used_ids (e ∷ es) = if e.in_use then e.packet_id ∷ used_ids es else used_ids es

pub found-find :
    (id : ℕ) (es : List OutboundInflightEntry) → found (find id es) ≡ member id (used_ids es)
unfolding find member used_ids
found-find id [] = refl
found-find id (e ∷ es) = elim (Option-cases (find id es)) [
  | inl n ↦ ground (arith, found-find id es)
  | inr (i, n) ↦ ground (arith, found-find id es)
]

pub length-used_ids : (es : List OutboundInflightEntry) → length (used_ids es) ≤ length es
unfolding used_ids
length-used_ids [] = omega arith
length-used_ids (e ∷ es) = ground (arith, length-used_ids es)

-- The identifier that the search tries at cursor `c`.
abbrev cursor : ℕ → ℕ
cursor c = if c == 0 then 1 else c

-- The `k` identifiers from the cursor on are all in the list.
abbrev AllTaken : ℕ → ℕ → List ℕ → Type 0
AllTaken zero c ids = Unit
AllTaken (suc k) c ids = (member (cursor c) ids ≡ true) × AllTaken k (u16 (cursor c + 1)) ids

-- The cursor passes `k` identifiers before it comes to `id`.
abbrev Ahead : ℕ → ℕ → ℕ → Type 0
Ahead k c id = (cursor c ≤ id → cursor c + k ≤ id) × (id < cursor c → cursor c + k ≤ id + 65535)

AllTaken-without :
    (k c id : ℕ) (ids : List ℕ)
    → c < 65536
    → 0 < id
    → id < 65536
    → Ahead k c id
    → AllTaken k c ids
    → AllTaken k c (without id ids)
AllTaken-without zero c id ids w pos small ahead all = tt
AllTaken-without (suc k) c id ids w pos small ahead (now, later) = (
  ground (arith, member-without id (cursor c) ids (ground arith)),
  AllTaken-without k (u16 (cursor c + 1)) id ids (ground arith) pos small (ground arith) later,
)

-- That many different identifiers do not fit into a shorter list.
AllTaken-bound :
    (k c : ℕ) (ids : List ℕ) → c < 65536 → k ≤ 65535 → AllTaken k c ids → k ≤ length ids
AllTaken-bound zero c ids w small all = omega arith
AllTaken-bound (suc k) c ids w small (now, later) =
    let below =
      AllTaken-bound k (u16 (cursor c + 1)) (without (cursor c) ids) (ground arith) (omega arith) (
        AllTaken-without k (u16 (cursor c + 1)) (cursor c) ids (ground arith) (ground arith)
          (ground arith) (ground arith) later) in
    omega (arith, below, length-without (cursor c) ids now)

-- What the caller of `next_packet_id` may rely on.
pub record Fresh (es : List OutboundInflightEntry) (answer : ℕ × ℕ) : Type 0 where
  pub positive : 0 < answer.1
  pub word : answer.1 < 65536
  pub unused : find answer.1 es ≡ none
  pub onward : answer.0 ≡ u16 (answer.1 + 1)

try_ids-cases :
    (k : ℕ) (es : List OutboundInflightEntry) (c : ℕ)
    → c < 65536
    → AllTaken k c (used_ids es) ⊎ Fresh es (try_ids k es c)
unfolding try_ids
try_ids-cases zero es c w = inl tt
try_ids-cases (suc k) es c w = elim (Option-cases (find (cursor c) es)) [
  | inl n ↦ inr (
      rw (try_ids, n)
        (record { positive = ground arith; word = ground arith; unused = n; onward = refl }))
  | inr (i, n) ↦ elim (try_ids-cases k es (u16 (cursor c + 1)) (ground arith)) [
    | inl all ↦ inl (ground (arith, found-find (cursor c) es), all)
    | inr fresh ↦ inr (rw (try_ids, n) fresh)
  ]
]

try_ids-Fresh :
    (k : ℕ) (es : List OutboundInflightEntry) (c : ℕ)
    → c < 65536
    → k ≤ 65535
    → length es < k
    → Fresh es (try_ids k es c)
try_ids-Fresh k es c w small room = elim (try_ids-cases k es c w) [
  | inl all ↦
      absurd (omega (arith, AllTaken-bound k c (used_ids es) w small all, length-used_ids es))
  | inr fresh ↦ fresh
]

-- In a table of fewer than 65535 entries the search never fails: it returns an identifier from 1 to
-- 65535 that no entry in use has, and leaves the cursor behind it; also where every entry is in use.
pub next_packet_id-Fresh :
    (t : SessionOutboundInflight)
    → t.next_id < 65536
    → length t.entries < 65535
    → Fresh t.entries ((next_packet_id t).0.next_id, (next_packet_id t).1)
unfolding next_packet_id
next_packet_id-Fresh t w room = try_ids-Fresh 65535 t.entries t.next_id w (omega arith) room
