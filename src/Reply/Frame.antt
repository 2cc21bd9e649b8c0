-- ===== src/Reply/Frame.antt =====
-- What a reply adds to the bytes to be sent: the packet behind its four bytes of header.
use uhp_sql.Common.{
  ℕ, ◌+◌, ◌%◌, ◌^◌, ◌≤◌, ◌<◌, ◌≡◌, refl, sym, ap, ◌∙◌, ◌≢◌, true, Option, some, [], ◌∷◌, ◌++◌,
  append-nil, append_assoc, arith, ltb, if◌then◌else◌, Bytes, codes, ◌>>=◌, length, get_or,
  length-append,
}
use uhp_sql.ProtocolBuffer.Spec.{le_bytes, len_prefix}
use uhp_sql.UnboundedBuffer
use uhp_sql.UnboundedBuffer.{UnboundedBuffer, max_buffer_size}
use uhp_sql.UnboundedBuffer.Invariant as Back
use uhp_sql.UnboundedBuffer.Fifo as BackFifo
use uhp_sql.AsyncBuffer.{AsyncBuffer, Pieces, total, joined, write}
use uhp_sql.AsyncBuffer.Write.{length-joined, IsValid, contents, write-Written, unread_lem}
use uhp_sql.Packet.Ok
use uhp_sql.Packet.Err
use uhp_sql.Packet.Greeting
use uhp_sql.Packet.Greeting.RoundTrip as Greet
use uhp_sql.Reply.{
  send_packet, push_strings, head_pack, send_framed, send_ok_message, send_error_message,
  on_connect,
}

-- The header of the protocol: the size in three bytes, the lowest first, and a sequence number.
abbrev pub frame : Bytes → ℕ → Bytes
frame out seq = le_bytes 3 (length out) ++ seq % 256 ∷ out

-- A call that adds `bytes` to what is to be sent, and keeps the send buffer valid.
pub record Sends (a : AsyncBuffer) (bytes : Bytes) (r : Option AsyncBuffer) : Type 0 where
  pub after : AsyncBuffer
  pub returns : r ≡ some after
  pub valid : IsValid after
  pub adds : contents after ≡ contents a ++ bytes

Sends-same :
    (a : AsyncBuffer) (s t : Bytes) (r : Option AsyncBuffer) → s ≡ t → Sends a s r → Sends a t r
Sends-same a s t r e x = record {
  after = x.after;
  returns = x.returns;
  valid = x.valid;
  adds = x.adds ∙ ap (λ u. contents a ++ u) e;
}

record Filled (b : UnboundedBuffer) (ds : Pieces) : Type 0 where
  after : UnboundedBuffer
  returns : push_strings b ds ≡ some after
  valid : Back.IsValid after
  appended : Back.contents after ≡ Back.contents b ++ joined ds

push_strings-Filled :
    (b : UnboundedBuffer) (ds : Pieces)
    → Back.IsValid b
    → total ds + length (Back.contents b) ≤ max_buffer_size
    → Filled b ds
unfolding push_strings
push_strings-Filled b [] v h = record {
  after = b;
  returns = refl;
  valid = v;
  appended = sym (append-nil (Back.contents b));
}
push_strings-Filled b (d ∷ ds) v h =
    let p = BackFifo.push_data-Pushed b d v (omega arith) in
    let r : Filled p.after ds =
      push_strings-Filled p.after ds p.valid
        (omega (arith, ap length p.appended, length-append (Back.contents b) d)) in
    record {
      after = r.after;
      returns = rw p.returns r.returns;
      valid = r.valid;
      appended =
          r.appended
          ∙ ap (λ s. s ++ joined ds) p.appended
          ∙ append_assoc (Back.contents b) d (joined ds);
    }

empty-IsValid : Back.IsValid UnboundedBuffer.empty
empty-IsValid = omega arith

send_packet-Sends :
    (a : AsyncBuffer) (reply : UnboundedBuffer)
    → IsValid a
    → Back.IsValid reply
    → length (Back.contents reply) + length (contents a) ≤ max_buffer_size
    → Sends a (Back.contents reply) (send_packet a reply)
unfolding send_packet
send_packet-Sends a reply v vr h = rw (unread_lem reply vr) (go (Back.contents reply) h)
  where
    go :
        (s : Bytes)
        → length s + length (contents a) ≤ max_buffer_size
        → Sends a s (if ltb 0 (length s) then write a (s ∷ []) else some a)
    go [] h = record { after = a; returns = refl; valid = v; adds = sym (append-nil (contents a)) }
    go (c ∷ s) h =
        let w = write-Written a ((c ∷ s) ∷ []) v (omega arith) in
        let some_bytes : ltb 0 (length (c ∷ s)) ≡ true = ground arith in
        rw some_bytes (record {
          after = w.after;
          returns = w.returns;
          valid = w.valid;
          adds = w.appended ∙ ap (λ t. contents a ++ t) (append-nil (c ∷ s));
        })

-- The strings pushed onto a new buffer and then sent.
reply-Sends :
    (a : AsyncBuffer) (ds : Pieces)
    → IsValid a
    → total ds + length (contents a) ≤ max_buffer_size
    → Sends a (joined ds) (push_strings UnboundedBuffer.empty ds >>= λ reply. send_packet a reply)
reply-Sends a ds v h =
    let p = push_strings-Filled UnboundedBuffer.empty ds empty-IsValid (omega arith) in
    let r : Sends a (Back.contents p.after) (send_packet a p.after) =
      send_packet-Sends a p.after v p.valid
        (omega (arith, ap length p.appended, length-joined ds)) in
    rw p.returns (record {
      after = r.after;
      returns = r.returns;
      valid = r.valid;
      adds = r.adds ∙ ap (λ t. contents a ++ t) p.appended;
    })

head_pack_lem :
    (out : Bytes) (seq : ℕ) → length out < 256 → head_pack out seq ++ out ≡ frame out seq
unfolding head_pack
head_pack_lem out seq h = ground arith

length-head_pack : (out : Bytes) (seq : ℕ) → length (head_pack out seq) ≡ 4
unfolding head_pack
length-head_pack out seq = refl

-- A short packet pushed with its header in one string.
whole-Sends :
    (a : AsyncBuffer) (out : Bytes) (seq : ℕ)
    → IsValid a
    → length out + 4 + length (contents a) ≤ max_buffer_size
    → length out < 256
    → Sends a (frame out seq) (
        push_strings UnboundedBuffer.empty ((head_pack out seq ++ out) ∷ []) >>= λ reply.
        send_packet a reply)
whole-Sends a out seq v room short =
    Sends-same a (joined ((head_pack out seq ++ out) ∷ [])) (frame out seq) _
      (append-nil (head_pack out seq ++ out) ∙ head_pack_lem out seq short)
      (reply-Sends a ((head_pack out seq ++ out) ∷ []) v
        (omega (arith, length-append (head_pack out seq) out, length-head_pack out seq)))

-- `send_framed` puts the packet behind its header where it is shorter than 256 bytes.
pub send_framed-Sends :
    (a : AsyncBuffer) (out : Bytes) (seq : ℕ)
    → IsValid a
    → length out + 4 + length (contents a) ≤ max_buffer_size
    → length out < 256
    → Sends a (frame out seq) (send_framed a out seq)
unfolding send_framed
send_framed-Sends a out seq v room short = whole-Sends a out seq v room short

length-len_prefix : (v : ℕ) → length (len_prefix v) ≤ 9
length-len_prefix v = ground arith

length-ok :
    (rows id flags warnings : ℕ)
    → rows < 2 ^ 64
    → id < 2 ^ 64
    → length (Ok.pack rows id flags warnings) ≤ 23
length-ok rows id flags warnings hr hi =
    let rest = le_bytes 2 flags ++ le_bytes 2 warnings in
    omega (
      arith,
      ap length (Ok.pack_lem rows id flags warnings hr hi),
      length-append (len_prefix rows) (len_prefix id ++ rest),
      length-append (len_prefix id) rest,
      length-len_prefix rows,
      length-len_prefix id,
    )

length-err :
    (code : ℕ) (state message : Bytes)
    → length (Err.pack code state message) ≡ 4 + length state + length message
length-err code state message =
    omega (arith, ap length (Err.pack_lem code state message), length-append state message)

-- `SendOkMessageToClient` puts an OK packet behind what is to be sent, and the size in its header
-- is always right.
pub send_ok_message-Sends :
    (a : AsyncBuffer) (seq rows id flags warnings : ℕ)
    → IsValid a
    → rows < 2 ^ 64
    → id < 2 ^ 64
    → 27 + length (contents a) ≤ max_buffer_size
    → Sends a
        (frame (Ok.pack rows id flags warnings) seq)
        (send_ok_message a seq rows id flags warnings)
unfolding send_ok_message
send_ok_message-Sends a seq rows id flags warnings v hr hi room =
    let out = Ok.pack rows id flags warnings in
    let size : length out ≤ 23 = length-ok rows id flags warnings hr hi in
    let bytes : joined (head_pack out seq ∷ out ∷ []) ≡ frame out seq =
      ap (λ t. head_pack out seq ++ t) (append-nil out)
      ∙ head_pack_lem out seq (omega (arith, size)) in
    Sends-same a (joined (head_pack out seq ∷ out ∷ [])) (frame out seq) _ bytes (
      reply-Sends a (head_pack out seq ∷ out ∷ []) v
        (omega (arith, size, length-head_pack out seq)))

-- `SendErrorMessageToClient` puts an ERR packet behind what is to be sent. The size in its header
-- is right for a packet of fewer than 256 bytes.
pub send_error_message-Sends :
    (a : AsyncBuffer) (seq code : ℕ) (state message : Bytes)
    → IsValid a
    → length state + length message < 252
    → 260 + length (contents a) ≤ max_buffer_size
    → Sends a
        (frame (Err.pack code state message) seq)
        (send_error_message a seq code state message)
unfolding send_error_message
send_error_message-Sends a seq code state message v short room =
    let size = length-err code state message in
    whole-Sends a (Err.pack code state message) seq v (omega (arith, size)) (omega (arith, size))

-- A packet behind a header that has only the lowest byte of its size.
abbrev pub misframed : Bytes → ℕ → Bytes
misframed out seq = le_bytes 3 (length out % 256) ++ seq % 256 ∷ out

head_pack-misframed : (out : Bytes) (seq : ℕ) → head_pack out seq ++ out ≡ misframed out seq
unfolding head_pack
head_pack-misframed out seq = ground arith

-- An error reply of 256 bytes or more, up to 65535, goes out behind a header with the right sequence
-- number and the size modulo 256, which is not the packet's size, so what the client is sent is not
-- the frame of the packet. The send buffer is valid before and after and has room for the reply.
pub send_error_message-long :
    (a : AsyncBuffer) (seq code : ℕ) (state message : Bytes)
    → IsValid a
    → 252 ≤ length state + length message
    → 4 + (length state + length message) < 2 ^ 16
    → 8 + (length state + length message) + length (contents a) ≤ max_buffer_size
    → Sends a
        (misframed (Err.pack code state message) seq)
        (send_error_message a seq code state message)
      × (misframed (Err.pack code state message) seq ≢ frame (Err.pack code state message) seq)
unfolding send_error_message head_pack
send_error_message-long a seq code state message v long small room =
    let out = Err.pack code state message in
    let size = length-err code state message in
    let ds : Pieces = (head_pack out seq ++ out) ∷ [] in
    let same : joined ds ≡ misframed out seq =
      append-nil (head_pack out seq ++ out) ∙ head_pack-misframed out seq in
    (
      Sends-same a (joined ds) (misframed out seq) _ same (
          reply-Sends a ds v
            (omega (arith, size, length-append (head_pack out seq) out, length-head_pack out seq))),
      λ e. absurd (omega (arith, ap (λ s. get_or s 1 0) e, size)),
    )

-- `OnConnect` puts the greeting behind what is to be sent, with the right size in its header, for
-- the 8 and 12 random bytes that the greeting reads, where a valid send buffer has room for 256
-- bytes; the buffer stays valid.
pub on_connect-Sends :
    (a : AsyncBuffer) (random1 random2 : Bytes)
    → IsValid a
    → length random1 ≡ 8
    → length random2 ≡ 12
    → 256 + length (contents a) ≤ max_buffer_size
    → Sends a
        (frame (Greeting.pack (Greeting.new 1 (codes "UHP-SQL-v0.1") random1 random2)) 0)
        (on_connect a random1 random2)
unfolding on_connect
on_connect-Sends a random1 random2 v h1 h2 room =
    let size : length (Greeting.pack (Greeting.new 1 (codes "UHP-SQL-v0.1") random1 random2))
        ≤ 200 =
      omega (arith, Greet.length-pack-new 1 (codes "UHP-SQL-v0.1") random1 random2) in
    whole-Sends a _ 0 v (omega (arith, size)) (omega (arith, size))
