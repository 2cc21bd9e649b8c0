-- ===== src/Executor/Result.antt =====
-- The bytes that `SendResultSetToClient` puts behind what is to be sent.
use uhp_sql.Common.{
  ℕ, ◌+◌, ◌≤◌, ◌<◌, ◌≡◌, refl, sym, ap, ◌∙◌, Option, some, List, [], ◌∷◌, ◌++◌, append-nil,
  append_assoc, arith, Bytes, ◌>>=◌, length, All, length-append,
}
use uhp_sql.ProtocolBuffer.{u8}
use uhp_sql.UnboundedBuffer.{max_buffer_size}
use uhp_sql.AsyncBuffer.{AsyncBuffer}
use uhp_sql.AsyncBuffer.Write.{IsValid, contents}
use uhp_sql.Reply.{send_framed}
use uhp_sql.Reply.Frame.{frame, Sends, send_framed-Sends}
use uhp_sql.Catalog.{DataTable, DataBase, get_col_count, Dbms, get_cur_db, cur_table}
use uhp_sql.Executor.Rows.{Row}
use uhp_sql.Executor.Exec.{send_all, result_packets, send_result_set}

-- Packets in frames with sequence numbers that follow on each other modulo 256.
abbrev pub frames : List Bytes → ℕ → Bytes
frames [] seq = []
frames (out ∷ outs) seq = frame out seq ++ frames outs (u8 (seq + 1))

-- The size of the frames.
abbrev pub frames_size : List Bytes → ℕ
frames_size [] = 0
frames_size (out ∷ outs) = length out + 4 + frames_size outs

-- The size of a packet fits the one byte that the executor writes it to.
abbrev pub IsShort : Bytes → Type 0
IsShort out = length out < 256

length-frame : (out : Bytes) (seq : ℕ) → length (frame out seq) ≡ length out + 4
length-frame out seq = ground arith

-- Two calls one after the other.
Sends-then :
    (a : AsyncBuffer) (s t : Bytes) (r : Option AsyncBuffer) (f : AsyncBuffer → Option AsyncBuffer)
    (x : Sends a s r)
    → Sends x.after t (f x.after)
    → Sends a (s ++ t) (r >>= f)
Sends-then a s t r f x y = record {
  after = y.after;
  returns = rw x.returns y.returns;
  valid = y.valid;
  adds = y.adds ∙ ap (λ u. u ++ t) x.adds ∙ append_assoc (contents a) s t;
}

send_all-Sends :
    (a : AsyncBuffer) (outs : List Bytes) (seq : ℕ)
    → IsValid a
    → All IsShort outs
    → frames_size outs + length (contents a) ≤ max_buffer_size
    → Sends a (frames outs seq) (send_all a outs seq)
unfolding send_all
send_all-Sends a [] seq v h room = record {
  after = a;
  returns = refl;
  valid = v;
  adds = sym (append-nil (contents a));
}
send_all-Sends a (out ∷ outs) seq v (short, h) room =
    let one = send_framed-Sends a out seq v (omega arith) short in
    let grown : length (contents one.after) ≡ length (contents a) + (length out + 4) =
      ap length one.adds
      ∙ length-append (contents a) (frame out seq)
      ∙ ap (λ n. length (contents a) + n) (length-frame out seq) in
    Sends-then a (frame out seq) (frames outs (u8 (seq + 1))) (send_framed a out seq)
      (λ a'. send_all a' outs (u8 (seq + 1))) one
      (send_all-Sends one.after outs (u8 (seq + 1)) one.valid h (omega arith))

-- A result set goes out as a frame with the number of columns, the descriptions of the columns, an
-- EOF packet, the rows and another EOF packet, in frames with the right sizes and with sequence
-- numbers from 1 on, where every packet is shorter than 256 bytes and the send buffer has room.
pub send_result_set-Sends :
    (a : AsyncBuffer) (d : Dbms) (b : DataBase) (t : DataTable) (rows : List Row) (tab : Bytes)
    → IsValid a
    → get_cur_db d ≡ some b
    → cur_table d tab ≡ some t
    → All IsShort (result_packets b.db_name t tab rows)
    → 5 + frames_size (result_packets b.db_name t tab rows) + length (contents a) ≤ max_buffer_size
    → Sends a
        (frames ((get_col_count t ∷ []) ∷ result_packets b.db_name t tab rows) 1)
        (send_result_set a d rows tab)
unfolding send_result_set send_all
send_result_set-Sends a d b t rows tab v hb ht short room =
    rw (hb, ht)
      (send_all-Sends a ((get_col_count t ∷ []) ∷ result_packets b.db_name t tab rows) 1 v
        (omega arith, short) (omega arith))
