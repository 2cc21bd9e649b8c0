-- ===== src/Tests/Buffers.antt =====
-- The buffers of network/buffer.h, network/unbounded_buffer.cc and network/async_buffer.cc on small
-- inputs.
use uhp_sql.Common.{
  ◌^◌, ◌≡◌, refl, true, false, some, List, [], ◌∷◌, arith, ℕ, ◌<◌, ◌≤◌, ◌*◌, ◌+◌, ◌↔◌,
}
use uhp_sql.UnboundedBuffer
use uhp_sql.UnboundedBuffer.{UnboundedBuffer, max_buffer_size}
use uhp_sql.UnboundedBuffer.Invariant as Back
use uhp_sql.UnboundedBuffer.Fifo as BackFifo
use uhp_sql.CircularBuffer
use uhp_sql.CircularBuffer.{CircularBuffer, BufferSequence}
use uhp_sql.CircularBuffer.Power as Power
use uhp_sql.CircularBuffer.Invariant as Ring
use uhp_sql.CircularBuffer.Push as RingPush
use uhp_sql.CircularBuffer.Datum as RingDatum
use uhp_sql.AsyncBuffer.{AsyncBuffer}
use uhp_sql.AsyncBuffer.Write as Write
use uhp_sql.AsyncBuffer.Fifo as Fifo

-- Two bytes read, two unread, room for one more.
abbrev half_read : UnboundedBuffer
half_read = record { read_pos = 2; write_pos = 4; buffer = 1 ∷ 2 ∷ 3 ∷ 4 ∷ 0 ∷ [] }

half_read-IsValid : Back.IsValid half_read
half_read-IsValid = omega arith

-- Unread bytes at the end of the array and at its front.
abbrev ring : CircularBuffer
ring = record { max_size = 4; read_pos = 3; write_pos = 1; buffer = 10 ∷ 11 ∷ 12 ∷ 13 ∷ [] }

ring-IsValid : Ring.IsValid ring
ring-IsValid = record {
  exponent = 2;
  power = refl;
  small = omega arith;
  storage = refl;
  read_in = omega arith;
  write_in = omega arith;
}

-- The ring is to be sent, and nothing is behind it.
abbrev sending : AsyncBuffer
sending = record {
  tmp_buf = UnboundedBuffer.empty;
  buffer = ring;
  back_buf = UnboundedBuffer.empty;
  back_bytes = 0;
}

sending-IsValid : Write.IsValid sending
sending-IsValid = record {
  tmp = omega arith;
  ring = ring-IsValid;
  back = omega arith;
  counted = refl;
}

abbrev schedule : List Fifo.Op
schedule =
    Fifo.put ((1 ∷ []) ∷ [])
    ∷ Fifo.put ((2 ∷ 3 ∷ 4 ∷ []) ∷ (5 ∷ []) ∷ [])
    ∷ Fifo.send true 2
    ∷ Fifo.send false 9
    ∷ Fifo.send false 9
    ∷ Fifo.send true 9
    ∷ []

run-InOrder_example : Fifo.InOrder sending schedule (Fifo.run sending schedule)
run-InOrder_example = Fifo.run-InOrder schedule sending sending-IsValid (omega arith)

abbrev calls : List BackFifo.Op
calls = BackFifo.push (5 ∷ 6 ∷ 7 ∷ []) ∷ BackFifo.peek 3 ∷ BackFifo.reset ∷ BackFifo.peek 1 ∷ []

run_refines_example :
    BackFifo.Agrees (BackFifo.run half_read calls) (BackFifo.run_queue (3 ∷ 4 ∷ []) calls)
run_refines_example =
    BackFifo.run_refines calls half_read (3 ∷ 4 ∷ []) half_read-IsValid refl (omega arith)
      (omega arith)

sizes_lem_example :
    (CircularBuffer.readable_size ring ≡ 2)
    × (2 + CircularBuffer.writeable_size ring + 1 ≡ 4)
    × ((CircularBuffer.is_empty ring ≡ true) ↔ (◌≡◌ {A = ℕ} 2 0))
    × ((CircularBuffer.is_full ring ≡ true) ↔ (CircularBuffer.writeable_size ring ≡ 0))
sizes_lem_example = Ring.sizes_lem ring ring-IsValid

round_up_2_power-power_example :
    (j : ℕ) × (CircularBuffer.round_up_2_power 100 ≡ some (2 ^ j))
    × (100 ≤ 2 ^ j)
    × (2 ^ j < 2 * 100)
round_up_2_power-power_example = Power.round_up_2_power-power 100 (omega arith) (omega arith)

push_data-Pushed_ring_example :
    RingPush.Pushed ring (14 ∷ []) (CircularBuffer.push_data ring (14 ∷ []))
push_data-Pushed_ring_example = RingPush.push_data-Pushed_ring ring (14 ∷ []) ring-IsValid room
  where
    room : 1 ≤ CircularBuffer.writeable_size ring
    room = omega (arith, Ring.sizes_lem ring ring-IsValid)

get_datum-gather_example :
    (bf : BufferSequence) × (CircularBuffer.get_datum ring 5 1 ≡ some bf)
    × (RingDatum.gather ring.buffer bf ≡ 10 ∷ [])
get_datum-gather_example = RingDatum.get_datum-gather ring 5 1 ring-IsValid
