-- ===== src/Client/Dispatch.antt =====
-- What was received is handled as one packet, and a packet with a statement is executed.
use uhp_sql.Common.{
  ℕ, zero, suc, ◌+◌, ◌≤◌, ◌≡◌, ◌≢◌, refl, ap, ◌∙◌, Bool, true, false, inl, inr, Bool-cases, some,
  List, [], ◌∷◌, ltb, ◌==◌, arith, Bytes, bytes_eq, length, get_or, drop, drop_of_length-le,
}
use uhp_sql.ProtocolBuffer.{u8}
use uhp_sql.UnboundedBuffer.{max_buffer_size}
use uhp_sql.CircularBuffer
use uhp_sql.CircularBuffer.{CircularBuffer}
use uhp_sql.CircularBuffer.Invariant as Ring
use uhp_sql.CircularBuffer.Datum as RingDatum
use uhp_sql.CircularBuffer.Pop as RingPop
use uhp_sql.AsyncBuffer.{stretches, joined}
use uhp_sql.AsyncBuffer.Send.{joined-stretches}
use uhp_sql.AsyncBuffer.Write.{IsValid, contents}
use uhp_sql.Packet.Ok
use uhp_sql.Reply.Frame.{frame}
use uhp_sql.Meta.{TableColumn}
use uhp_sql.Store.{Redis}
use uhp_sql.Catalog.{DataBase}
use uhp_sql.Executor.Analyze.{Stack}
use uhp_sql.Executor.Exec.{exec}
use uhp_sql.Executor.Table.{Contents, Change, apply, Legal, InUse, Keeps}
use uhp_sql.Executor.Statements.{statement_of, warnings_of, Executed, exec_statement-Executed}
use uhp_sql.Client.{
  Parsed, valid, version_query, Client, handle_parsed, handle_packet, msg_loop, do_msg_parse,
}

module _ (R : Redis) (parse : Bytes → Parsed) (stacks : ℕ → Stack) where
  -- A packet is consumed whole.
  handle_packet-length :
      (c c' : Client R) (bytes : Bytes) (n : ℕ)
      → handle_packet R parse stacks c bytes ≡ some (n, c')
      → n ≡ length bytes
  unfolding handle_packet
  handle_packet-length c c' bytes n h = ground arith

  msg_loop-empty :
      (fuel : ℕ) (busy : Bool) (c : Client R) (recv : CircularBuffer)
      → CircularBuffer.is_empty recv ≡ true
      → msg_loop R parse stacks fuel busy c recv ≡ some (busy, c, recv)
  unfolding msg_loop
  msg_loop-empty zero busy c recv h = refl
  msg_loop-empty (suc fuel) busy c recv h = rw h refl

  -- The loop over a ring buffer that is not empty, where the packet is handled.
  msg_loop-packet :
      (fuel : ℕ) (busy : Bool) (c c' : Client R) (recv : CircularBuffer) (n : ℕ)
      → Ring.IsValid recv
      → Ring.contents recv ≢ []
      → handle_packet R parse stacks c (Ring.contents recv) ≡ some (n, c')
      → (after : CircularBuffer) × (msg_loop R parse stacks (suc fuel) busy c recv
          ≡ some (true, c', after))
        × Ring.IsValid after
        × (Ring.contents after ≡ [])
  unfolding msg_loop
  msg_loop-packet fuel busy c c' recv n v ne h =
      let sizes = Ring.sizes_lem recv v in
      let some_bytes : length (Ring.contents recv) ≢ 0 = length_ne (Ring.contents recv) ne in
      let more : CircularBuffer.is_empty recv ≡ false =
        elim (Bool-cases (CircularBuffer.is_empty recv)) [
          | inl e ↦ absurd (some_bytes (sizes.2.0 e))
          | inr e ↦ e
        ] in
      let (bf, got, all, total) = RingDatum.get_datum_all recv v more in
      let handled : handle_packet R parse stacks c (joined (stretches recv.buffer bf))
          ≡ some (n, c') =
        ap (handle_packet R parse stacks c) (joined-stretches recv.buffer bf ∙ all) ∙ h in
      let size = handle_packet-length c c' (Ring.contents recv) n h in
      let moved : ltb 0 n ≡ true = ground (arith, size, some_bytes) in
      let (valid_after, rest) = RingPop.adjust_read_ptr-Skipped recv n v (omega (arith, size)) in
      let none_left : Ring.contents (CircularBuffer.adjust_read_ptr recv n) ≡ [] =
        rest ∙ drop_of_length-le n (Ring.contents recv) (omega (arith, size)) in
      let stop : CircularBuffer.is_empty (CircularBuffer.adjust_read_ptr recv n) ≡ true =
        (Ring.sizes_lem (CircularBuffer.adjust_read_ptr recv n) valid_after).2.1
          (ap length none_left) in
      (
        CircularBuffer.adjust_read_ptr recv n,
        rw (more, got, handled, moved)
            (msg_loop-empty fuel true c' (CircularBuffer.adjust_read_ptr recv n) stop),
        valid_after,
        none_left,
      )
    where
      length_ne : (s : Bytes) → s ≢ [] → length s ≢ 0
      length_ne [] ne e = ne refl
      length_ne (x ∷ s) ne e = omega arith

-- On a valid ring buffer that holds some bytes, `DoMsgParse` hands all of them to `_HandlePacket` as
-- one packet, once, whatever packets the client sent; where that is handled, it returns true, and
-- the ring buffer is valid and empty afterwards.
pub do_msg_parse-whole :
    (R : Redis) (parse : Bytes → Parsed) (stacks : ℕ → Stack) (c c' : Client R)
    (recv : CircularBuffer) (n : ℕ)
    → Ring.IsValid recv
    → Ring.contents recv ≢ []
    → handle_packet R parse stacks c (Ring.contents recv) ≡ some (n, c')
    → (after : CircularBuffer) × (do_msg_parse R parse stacks c recv ≡ some (true, c', after))
      × Ring.IsValid after
      × (Ring.contents after ≡ [])
unfolding do_msg_parse
do_msg_parse-whole R parse stacks c c' recv n v ne h =
    msg_loop-packet R parse stacks (CircularBuffer.readable_size recv) false c c' recv n v ne h

-- On a table in use whose rows the store keeps as the map `m` says, a packet of at least five
-- bytes whose number is not 1, and whose query is not the one for the version and is taken by the
-- parser for the statement of a legal change, is consumed whole; the change is carried out as the
-- map says, and the client is sent an OK packet with the next sequence number and the rows
-- affected there, where a valid send buffer has room for 27 bytes.
pub handle_packet-Executed :
    (R : Redis) (parse : Bytes → Parsed) (stacks : ℕ → Stack) (client : Client R) (b : DataBase)
    (tab : Bytes) (cols : List TableColumn) (m : Contents) (field : Bytes) (c : Change)
    (bytes : Bytes)
    → InUse client.server.dbms b tab cols
    → Keeps R client.server.dbms b tab cols client.server.store m
    → IsValid client.server.socket
    → 27 + length (contents client.server.socket) ≤ max_buffer_size
    → Legal cols c
    → 5 ≤ length bytes
    → get_or bytes 3 0 ≢ 1
    → bytes_eq (drop 5 bytes) version_query ≡ false
    → parse (drop 5 bytes) ≡ valid (statement_of tab cols field c ∷ [])
    → (after : Client R) × (handle_packet R parse stacks client bytes ≡ some (length bytes, after))
      × Executed R client.server b tab cols
          (apply m c).1
          (frame (Ok.pack (apply m c).0 0 2 (warnings_of c)) (u8 (get_or bytes 3 0 + 1)))
          (some after.server)
unfolding handle_packet handle_parsed exec
handle_packet-Executed R parse stacks client b tab cols m field c bytes u k ok room h long seq other
      p =
    let done =
      exec_statement-Executed R client.server b tab cols m (stacks 0) (u8 (get_or bytes 3 0 + 1))
        field c u k ok room h in
    let query : (get_or bytes 3 0 == 1) ≡ false = ground arith in
    let whole : ltb (length bytes) 5 ≡ false = ground arith in
    (
      record client { server = done.after },
      rw (whole, query, other, p, done.returns) refl,
      record {
        after = done.after;
        returns = refl;
        same = done.same;
        keeps = done.keeps;
        valid = done.valid;
        adds = done.adds;
      },
    )
