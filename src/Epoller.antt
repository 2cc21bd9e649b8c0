-- ===== src/Epoller.antt =====
-- The poller of network/epoller.cc. epoll itself belongs to the kernel and is an interface; `errno`
-- is written out, since the code reads it where no call has set it.
pub mod Interest
use uhp_sql.Common.{
  ℕ, zero, suc, ◌+◌, ◌≡◌, ◌≢◌, Bool, true, false, not, ◌&&◌, ◌||◌, Option, none, some, List, [],
  ◌∷◌, ◌==◌, bit_and, bit_or, if◌then◌else◌, ◌>>=◌, ◌++◌, length, drop,
}
use uhp_sql.Common.Int.{ℤ, pos, negsuc}

-- EEXIST, ENOENT and all others.
pub data Errno : Type 0 where
  exists : Errno
  no_entry : Errno
  other : Errno

-- EPOLLIN and EPOLLOUT.
pub record Mask : Type 0 where
  pub reads : Bool
  pub writes : Bool

-- An epoll instance: the interest list, and what `epoll_ctl` answers, `none` for success. It fails
-- with EEXIST only where it is to add a descriptor that is there, with ENOENT only where it is to
-- change or remove one that is not, and changes nothing where it fails.
pub record Epoll : Type 1 where
  pub State : Type 0
  pub Data : Type 0
  pub interest : State → ℕ → Option (Mask × Data)
  pub ctl_add : State → ℕ → Mask → Data → Option Errno × State
  pub ctl_mod : State → ℕ → Mask → Data → Option Errno × State
  pub ctl_del : State → ℕ → Option Errno × State
  pub ctl_add-none :
      (s : State) (fd : ℕ) (m : Mask) (d : Data) (j : ℕ)
      → (ctl_add s fd m d).0 ≡ none
      → interest (ctl_add s fd m d).1 j ≡ (if fd == j then some (m, d) else interest s j)
  pub ctl_add-some :
      (s : State) (fd : ℕ) (m : Mask) (d : Data) (e : Errno) (j : ℕ)
      → (ctl_add s fd m d).0 ≡ some e
      → interest (ctl_add s fd m d).1 j ≡ interest s j
  pub ctl_add-exists :
      (s : State) (fd : ℕ) (m : Mask) (d : Data)
      → (ctl_add s fd m d).0 ≡ some exists
      → interest s fd ≢ none
  pub ctl_mod-none :
      (s : State) (fd : ℕ) (m : Mask) (d : Data) (j : ℕ)
      → (ctl_mod s fd m d).0 ≡ none
      → interest (ctl_mod s fd m d).1 j ≡ (if fd == j then some (m, d) else interest s j)
  pub ctl_mod-some :
      (s : State) (fd : ℕ) (m : Mask) (d : Data) (e : Errno) (j : ℕ)
      → (ctl_mod s fd m d).0 ≡ some e
      → interest (ctl_mod s fd m d).1 j ≡ interest s j
  pub ctl_mod-no_entry :
      (s : State) (fd : ℕ) (m : Mask) (d : Data)
      → (ctl_mod s fd m d).0 ≡ some no_entry
      → interest s fd ≡ none
  pub ctl_del-none :
      (s : State) (fd : ℕ) (j : ℕ)
      → (ctl_del s fd).0 ≡ none
      → interest (ctl_del s fd).1 j ≡ (if fd == j then none else interest s j)
  pub ctl_del-some :
      (s : State) (fd : ℕ) (e : Errno) (j : ℕ)
      → (ctl_del s fd).0 ≡ some e
      → interest (ctl_del s fd).1 j ≡ interest s j

-- EventTypeRead and EventTypeWrite, as epoll's.
unfoldable pub mask_of : ℕ → Mask
mask_of events = record {
  reads = not (bit_and events 1 == 0);
  writes = not (bit_and events 2 == 0);
}

abbrev pub is_exists : Errno → Bool
is_exists exists = true
is_exists no_entry = false
is_exists other = false

abbrev pub is_no_entry : Errno → Bool
is_no_entry exists = false
is_no_entry no_entry = true
is_no_entry other = false

module _ (E : Epoll) where
  -- What a call leaves: its result, `errno` and the instance.
  pub record After : Type 0 where
    pub result : Bool
    pub errno : Errno
    pub state : E.State

  -- `0 == epoll_ctl(...)`, which sets `errno` only where it fails.
  abbrev pub answered : Errno → Option Errno × E.State → After
  answered errno (none, s) = record { result = true; errno = errno; state = s }
  answered errno (some e, s) = record { result = false; errno = e; state = s }

  -- The functions of namespace `Epoll`, which make no call for a negative descriptor.
  unfoldable pub epoll_add : E.State → Errno → ℤ → ℕ → E.Data → After
  epoll_add s errno (pos fd) events d = answered errno (E.ctl_add s fd (mask_of events) d)
  epoll_add s errno (negsuc n) events d = record { result = false; errno = errno; state = s }

  unfoldable pub epoll_mod : E.State → Errno → ℤ → ℕ → E.Data → After
  epoll_mod s errno (pos fd) events d = answered errno (E.ctl_mod s fd (mask_of events) d)
  epoll_mod s errno (negsuc n) events d = record { result = false; errno = errno; state = s }

  unfoldable pub epoll_del : E.State → Errno → ℤ → After
  epoll_del s errno (pos fd) = answered errno (E.ctl_del s fd)
  epoll_del s errno (negsuc n) = record { result = false; errno = errno; state = s }

  unfoldable mutual
    -- `Epoller::AddSocket` and `Epoller::ModSocket`, which call each other; `none` is that the fuel
    -- runs out.
    pub add_socket : ℕ → E.State → Errno → ℤ → ℕ → E.Data → Option After
    add_socket zero s errno sock events d = none
    add_socket (suc fuel) s errno sock events d =
        let a = epoll_add s errno sock events d in
        let again = mod_socket fuel a.state a.errno sock events d in
        if a.result || not (is_exists a.errno) then some a else again

    pub mod_socket : ℕ → E.State → Errno → ℤ → ℕ → E.Data → Option After
    mod_socket zero s errno sock events d = none
    mod_socket (suc fuel) s errno sock events d =
        let a = epoll_mod s errno sock events d in
        let again = add_socket fuel a.state a.errno sock events d in
        if events == 0
        then some (epoll_del s errno sock)
        else if a.result || not (is_no_entry a.errno)
        then some a
        else again

-- What epoll reports of a descriptor: EPOLLIN, EPOLLOUT, and one of EPOLLERR and EPOLLHUP.
pub record Report : Type 0 where
  pub input : Bool
  pub output : Bool
  pub failure : Bool

-- The bits of `FiredEvent`. The last test compares where it is meant to set EventTypeError.
unfoldable pub fired_bits : Report → ℕ
fired_bits r =
    let read = if r.input then bit_or 0 1 else 0 in if r.output then bit_or read 2 else read

module _ (D : Type 0) where
  pub record FiredEvent : Type 0 where
    pub events : ℕ
    pub userdata : Option D

module _ {D : Type 0} where
  unfoldable pub fired : List (Report × D) → List (FiredEvent D)
  unfolding fired_bits
  fired [] = []
  fired ((r, d) ∷ reports) = record { events = fired_bits r; userdata = some d } ∷ fired reports

  -- `Poll` with the caller's vector: what it returns and the vector afterwards. `epoll_wait` fails
  -- (`none`) or reports on some descriptors.
  unfoldable pub poll :
      List (FiredEvent D) → ℕ → Option (List (Report × D)) → ℤ × List (FiredEvent D)
  unfolding fired
  poll events zero answer = (pos 0, events)
  poll events (suc max) none = (negsuc 0, events)
  poll events (suc max) (some reports) =
      (pos (length reports), fired reports ++ drop (length reports) events)
