-- ===== src/Parser/Subscribe.antt =====
-- The payloads of SUBSCRIBE and UNSUBSCRIBE in libs/mqtt_broker/src/parser.cpp. `rest` are the bytes
-- from `off` on, and `room` is the number of entries for which the packet has room left.
use net_burner_mqtt_broker.Base.{
  ℕ, zero, suc, ◌+◌, Bool, false, ◌&&◌, ◌||◌, not, ltb, leb, ◌==◌, if◌then◌else◌, List, [], ◌∷◌,
  length, take, drop,
}
use net_burner_mqtt_broker.Wire.{byte_at, read_u16_be}
use net_burner_mqtt_broker.TopicIntern.{until_nul}
use net_burner_mqtt_broker.Parser.Packet.{ParsedPacket, ParsedSubscribeEntry, max_subscribe_entries}

-- The loop of `parse_subscribe_payload`: the entries that it has stored, and the answer.
unfoldable pub subscribe_entries_loop : ℕ → List ℕ → List ParsedSubscribeEntry × Bool
subscribe_entries_loop zero rest = ([], length rest == 0)
subscribe_entries_loop (suc room) rest =
    let flen = read_u16_be rest in
    let behind = drop 2 rest in
    let entry : ParsedSubscribeEntry = record {
      filter = until_nul (take flen behind);
      options_byte = byte_at behind flen;
    } in
    let (entries, ok) = subscribe_entries_loop room (drop (flen + 1) behind) in
    if ltb (length rest) 3
    then ([], length rest == 0)
    else if ltb (length behind) (flen + 1) || leb 256 flen
    then ([], false)
    else (entry ∷ entries, ok)

unfoldable pub parse_subscribe_payload : List ℕ → ParsedPacket → ParsedPacket × Bool
unfolding subscribe_entries_loop
parse_subscribe_payload buf pkt =
    let (entries, ok) = subscribe_entries_loop max_subscribe_entries buf in
    (record pkt { subscribe_entries = entries }, ok && not (length entries == 0))

-- The loop of `parse_unsubscribe_payload`.
unfoldable pub unsubscribe_entries_loop : ℕ → List ℕ → List ParsedSubscribeEntry × Bool
unsubscribe_entries_loop zero rest = ([], length rest == 0)
unsubscribe_entries_loop (suc room) rest =
    let flen = read_u16_be rest in
    let behind = drop 2 rest in
    let entry : ParsedSubscribeEntry = record {
      filter = until_nul (take flen behind);
      options_byte = 0;
    } in
    let (entries, ok) = unsubscribe_entries_loop room (drop flen behind) in
    if ltb (length rest) 2
    then ([], length rest == 0)
    else if ltb (length behind) flen || leb 256 flen
    then ([], false)
    else (entry ∷ entries, ok)

unfoldable pub parse_unsubscribe_payload : List ℕ → ParsedPacket → ParsedPacket × Bool
unfolding unsubscribe_entries_loop
parse_unsubscribe_payload buf pkt =
    let (entries, ok) = unsubscribe_entries_loop max_subscribe_entries buf in
    (record pkt { subscribe_entries = entries }, ok && not (length entries == 0))
