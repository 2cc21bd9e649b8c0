-- ===== src/Tests/Network.antt =====
-- The poller on a list of descriptors, and a connection of the sending thread.
use uhp_sql.Common.{
  ℕ, ◌≡◌, ◌≢◌, refl, true, false, Option, none, some, [], ◌∷◌, ◌==◌, if◌then◌else◌, arith,
}
use uhp_sql.UnboundedBuffer
use uhp_sql.CircularBuffer
use uhp_sql.CircularBuffer.{CircularBuffer}
use uhp_sql.AsyncBuffer.{AsyncBuffer}
use uhp_sql.Common.Int.{pos}
use uhp_sql.Epoller.{Errno, exists, no_entry, Mask, Epoll, mask_of, mod_socket}
use uhp_sql.Epoller.Interest.{Ends, mod_socket-Ends}
use uhp_sql.CircularBuffer.Invariant as Ring
use uhp_sql.Receive.{read, recv}
use uhp_sql.Receive.Push.{recv-push_data}
use uhp_sql.NetThread.{on_write_event, each_event}
use uhp_sql.NetThread.Drops.{Connected, stream_socket, GivesUp, each_event-GivesUp}

abbrev ring : ℕ → CircularBuffer
ring from = record { max_size = 4; read_pos = from; write_pos = 1; buffer = 10 ∷ 11 ∷ 12 ∷ 13 ∷ [] }

-- Two bytes are to be sent from 3 on, one from 0 on.
abbrev to_send : ℕ → AsyncBuffer
to_send from = record {
  tmp_buf = UnboundedBuffer.empty;
  buffer = ring from;
  back_buf = UnboundedBuffer.empty;
  back_bytes = 0;
}

-- Two connections that wait for the poller, which reports the first.
abbrev waiting : Connected
waiting s = record {
  stream = record { send_buf = to_send s; epoll_out = true; write_event = true };
  invalid = false;
  answers = [];
}

each_event-GivesUp_example : GivesUp waiting ((2, 0) ∷ []) (
    each_event
      (stream_socket (λ c. none))
      (on_write_event (stream_socket (λ c. none)))
      waiting
      ((2, 0) ∷ []))
each_event-GivesUp_example = each_event-GivesUp (λ c. none) waiting ((2, 0) ∷ []) (refl, tt)

ring-IsValid : Ring.IsValid (ring 0)
ring-IsValid = record {
  exponent = 2;
  power = refl;
  small = omega arith;
  storage = refl;
  read_in = omega arith;
  write_in = omega arith;
}

room : 2 ≡ CircularBuffer.writeable_size (ring 0)
unfolding CircularBuffer.writeable_size CircularBuffer.readable_size
room = refl

recv-push_data_example :
    (bf : CircularBuffer.BufferSequence) × (after : CircularBuffer) × (CircularBuffer.get_space
        (ring 0)
        0
      ≡ some bf)
    × (CircularBuffer.total_bytes bf ≡ CircularBuffer.writeable_size (ring 0))
    × (recv (read (7 ∷ 8 ∷ [])) (ring 0) ≡ some (pos 2, after))
    × (CircularBuffer.push_data (ring 0) (7 ∷ 8 ∷ []) ≡ some (true, after))
    × Ring.IsValid after
    × (Ring.contents after ≡ 10 ∷ 7 ∷ 8 ∷ [])
recv-push_data_example =
    recv-push_data (ring 0) 7 (8 ∷ []) ring-IsValid (omega (arith, room)) (omega (arith, room))

abbrev Entries : Type 0
Entries = ℕ → Option (Mask × ℕ)

abbrev set_entry : Entries → ℕ → Option (Mask × ℕ) → Entries
set_entry s fd e j = if fd == j then e else s j

abbrev add_entry : Option (Mask × ℕ) → Entries → ℕ → Mask → ℕ → Option Errno × Entries
add_entry none s fd m d = (none, set_entry s fd (some (m, d)))
add_entry (some e) s fd m d = (some exists, s)

abbrev change_entry : Option (Mask × ℕ) → Entries → ℕ → Option (Mask × ℕ) → Option Errno × Entries
change_entry none s fd e = (some no_entry, s)
change_entry (some old) s fd e = (none, set_entry s fd e)

add_entry-none :
    (old : Option (Mask × ℕ)) (s : Entries) (fd : ℕ) (m : Mask) (d j : ℕ)
    → (add_entry old s fd m d).0 ≡ none
    → (add_entry old s fd m d).1 j ≡ (if fd == j then some (m, d) else s j)
add_entry-none none s fd m d j h = refl
add_entry-none (some e) s fd m d j h = absurd cc

add_entry-some :
    (old : Option (Mask × ℕ)) (s : Entries) (fd : ℕ) (m : Mask) (d : ℕ) (e : Errno) (j : ℕ)
    → (add_entry old s fd m d).0 ≡ some e
    → (add_entry old s fd m d).1 j ≡ s j
add_entry-some none s fd m d e j h = absurd cc
add_entry-some (some x) s fd m d e j h = refl

add_entry-exists :
    (old : Option (Mask × ℕ)) (s : Entries) (fd : ℕ) (m : Mask) (d : ℕ)
    → (add_entry old s fd m d).0 ≡ some exists
    → old ≢ none
add_entry-exists none s fd m d h e = absurd cc
add_entry-exists (some x) s fd m d h e = absurd cc

change_entry-none :
    (old : Option (Mask × ℕ)) (s : Entries) (fd : ℕ) (e : Option (Mask × ℕ)) (j : ℕ)
    → (change_entry old s fd e).0 ≡ none
    → (change_entry old s fd e).1 j ≡ (if fd == j then e else s j)
change_entry-none none s fd e j h = absurd cc
change_entry-none (some x) s fd e j h = refl

change_entry-some :
    (old : Option (Mask × ℕ)) (s : Entries) (fd : ℕ) (e : Option (Mask × ℕ)) (x : Errno) (j : ℕ)
    → (change_entry old s fd e).0 ≡ some x
    → (change_entry old s fd e).1 j ≡ s j
change_entry-some none s fd e x j h = refl
change_entry-some (some y) s fd e x j h = absurd cc

change_entry-no_entry :
    (old : Option (Mask × ℕ)) (s : Entries) (fd : ℕ) (e : Option (Mask × ℕ))
    → (change_entry old s fd e).0 ≡ some no_entry
    → old ≡ none
change_entry-no_entry none s fd e h = refl
change_entry-no_entry (some y) s fd e h = absurd cc

-- An epoll instance that never fails otherwise.
abbrev list : Epoll
list = record {
  State = Entries;
  Data = ℕ;
  interest = λ s fd. s fd;
  ctl_add = λ s fd m d. add_entry (s fd) s fd m d;
  ctl_mod = λ s fd m d. change_entry (s fd) s fd (some (m, d));
  ctl_del = λ s fd. change_entry (s fd) s fd none;
  ctl_add-none = λ s fd m d j h. add_entry-none (s fd) s fd m d j h;
  ctl_add-some = λ s fd m d e j h. add_entry-some (s fd) s fd m d e j h;
  ctl_add-exists = λ s fd m d h. add_entry-exists (s fd) s fd m d h;
  ctl_mod-none = λ s fd m d j h. change_entry-none (s fd) s fd (some (m, d)) j h;
  ctl_mod-some = λ s fd m d e j h. change_entry-some (s fd) s fd (some (m, d)) e j h;
  ctl_mod-no_entry = λ s fd m d h. change_entry-no_entry (s fd) s fd (some (m, d)) h;
  ctl_del-none = λ s fd j h. change_entry-none (s fd) s fd none j h;
  ctl_del-some = λ s fd e j h. change_entry-some (s fd) s fd none e j h;
}

mod_socket-Ends_example :
    Ends list
      (λ j. none)
      (pos 5)
      (some (mask_of 2, 77))
      (mod_socket list 2 (λ j. none) exists (pos 5) 2 77)
mod_socket-Ends_example = mod_socket-Ends list 0 (λ j. none) exists (pos 5) 2 77
