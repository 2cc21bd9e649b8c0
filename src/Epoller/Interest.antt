-- ===== src/Epoller/Interest.antt =====
-- The interest list behind the calls of the poller.
use uhp_sql.Common.{
  ℕ, suc, ◌≡◌, ◌≢◌, refl, sym, ap, ◌∙◌, Bool, true, false, not, ◌&&◌, ◌||◌, inl, inr, Bool-cases,
  Option, none, some, ◌==◌, if◌then◌else◌, if_elim,
}
use uhp_sql.Common.Int.{ℤ, pos, negsuc}
use uhp_sql.Epoller.{
  Errno, exists, no_entry, other, Mask, Epoll, mask_of, is_exists, is_no_entry, After, answered,
  epoll_add, epoll_mod, epoll_del, add_socket, mod_socket,
}

module _ (E : Epoll) where
  abbrev pub Entry : Type 0
  Entry = Option (Mask × E.Data)

  -- What the instance has for a descriptor once `wanted` is put down for `sock`, or is not.
  abbrev pub put_down : ℤ → Bool → Entry → E.State → ℕ → Entry
  put_down (pos fd) done wanted s j = if done && fd == j then wanted else E.interest s j
  put_down (negsuc n) done wanted s j = E.interest s j

  -- A call that puts down `wanted` for `sock` where it returns true, and changes nothing otherwise.
  pub record Sets (s : E.State) (sock : ℤ) (wanted : Entry) (a : After E) : Type 0 where
    pub interest : (j : ℕ) → E.interest a.state j ≡ put_down sock a.result wanted s j

  answered-Sets :
      (s : E.State) (fd : ℕ) (wanted : Entry) (errno : Errno) (r : Option Errno × E.State)
      → ((j : ℕ) → r.0 ≡ none → E.interest r.1 j ≡ (if fd == j then wanted else E.interest s j))
      → ((e : Errno) (j : ℕ) → r.0 ≡ some e → E.interest r.1 j ≡ E.interest s j)
      → Sets s (pos fd) wanted (answered E errno r)
  answered-Sets s fd wanted errno (none, s') ok bad = record { interest = λ j. ok j refl }
  answered-Sets s fd wanted errno (some e, s') ok bad = record { interest = λ j. bad e j refl }

  epoll_add-Sets :
      (s : E.State) (errno : Errno) (sock : ℤ) (events : ℕ) (d : E.Data)
      → Sets s sock (some (mask_of events, d)) (epoll_add E s errno sock events d)
  unfolding epoll_add
  epoll_add-Sets s errno (pos fd) events d =
      answered-Sets s fd (some (mask_of events, d)) errno (E.ctl_add s fd (mask_of events) d)
        (E.ctl_add-none s fd (mask_of events) d) (E.ctl_add-some s fd (mask_of events) d)
  epoll_add-Sets s errno (negsuc n) events d = record { interest = λ j. refl }

  epoll_mod-Sets :
      (s : E.State) (errno : Errno) (sock : ℤ) (events : ℕ) (d : E.Data)
      → Sets s sock (some (mask_of events, d)) (epoll_mod E s errno sock events d)
  unfolding epoll_mod
  epoll_mod-Sets s errno (pos fd) events d =
      answered-Sets s fd (some (mask_of events, d)) errno (E.ctl_mod s fd (mask_of events) d)
        (E.ctl_mod-none s fd (mask_of events) d) (E.ctl_mod-some s fd (mask_of events) d)
  epoll_mod-Sets s errno (negsuc n) events d = record { interest = λ j. refl }

  epoll_del-Sets :
      (s : E.State) (errno : Errno) (sock : ℤ) → Sets s sock none (epoll_del E s errno sock)
  unfolding epoll_del
  epoll_del-Sets s errno (pos fd) =
      answered-Sets s fd none errno (E.ctl_del s fd) (E.ctl_del-none s fd) (E.ctl_del-some s fd)
  epoll_del-Sets s errno (negsuc n) = record { interest = λ j. refl }

  -- A call that failed before one that is made in its place.
  after_failure :
      (s : E.State) (sock : ℤ) (wanted wanted' : Entry) (a b : After E)
      → Sets s sock wanted' a
      → a.result ≡ false
      → Sets a.state sock wanted b
      → Sets s sock wanted b
  after_failure s (pos fd) wanted wanted' a b f e g = record {
    interest = λ j.
        g.interest j
        ∙ ap (λ i. if b.result && fd == j then wanted else i)
            (f.interest j ∙ ap (λ r. if r && fd == j then wanted' else E.interest s j) e);
  }
  after_failure s (negsuc n) wanted wanted' a b f e g = record {
    interest = λ j. g.interest j ∙ f.interest j;
  }

  answered_failure :
      (errno : Errno) (r : Option Errno × E.State)
      → (answered E errno r).result ≡ false
      → r.0 ≡ some (answered E errno r).errno
  answered_failure errno (none, s) h = absurd cc
  answered_failure errno (some e, s) h = refl

  exists_eq : (e : Errno) → is_exists e ≡ true → e ≡ exists
  exists_eq exists h = refl
  exists_eq no_entry h = absurd cc
  exists_eq other h = absurd cc

  no_entry_eq : (e : Errno) → is_no_entry e ≡ true → e ≡ no_entry
  no_entry_eq exists h = absurd cc
  no_entry_eq no_entry h = refl
  no_entry_eq other h = absurd cc

  or_not : (b c : Bool) → (b ≡ false → c ≡ true → ⊥) → (b || not c) ≡ true
  or_not true c h = refl
  or_not false true h = absurd (h refl refl)
  or_not false false h = refl

  exists_ne_no_entry : (e : Errno) → is_exists e ≡ true → is_no_entry e ≡ true → ⊥
  exists_ne_no_entry e h h' = let same = sym (exists_eq e h) ∙ no_entry_eq e h' in absurd cc

  mod_missing :
      (s : E.State) (fd : ℕ) (m : Mask) (d : E.Data) (errno : Errno)
      → (answered E errno (E.ctl_mod s fd m d)).result ≡ false
      → is_no_entry (answered E errno (E.ctl_mod s fd m d)).errno ≡ true
      → E.interest s fd ≡ none
  mod_missing s fd m d errno bad is =
      E.ctl_mod-no_entry s fd m d
        (answered_failure errno (E.ctl_mod s fd m d) bad ∙ ap some (no_entry_eq _ is))

  add_present :
      (s : E.State) (fd : ℕ) (m : Mask) (d : E.Data) (errno : Errno)
      → (answered E errno (E.ctl_add s fd m d)).result ≡ false
      → is_exists (answered E errno (E.ctl_add s fd m d)).errno ≡ true
      → E.interest s fd ≢ none
  add_present s fd m d errno bad is =
      E.ctl_add-exists s fd m d
        (answered_failure errno (E.ctl_add s fd m d) bad ∙ ap some (exists_eq _ is))

  -- What a failed call leaves for its own descriptor.
  kept_at :
      (s : E.State) (fd : ℕ) (wanted : Entry) (a : After E)
      → Sets s (pos fd) wanted a
      → a.result ≡ false
      → E.interest a.state fd ≡ E.interest s fd
  kept_at s fd wanted a f bad =
      f.interest fd ∙ ap (λ r. if r && fd == fd then wanted else E.interest s fd) bad

  -- EEXIST and ENOENT do not follow each other, either way round.
  add_then_mod :
      (s : E.State) (errno : Errno) (sock : ℤ) (events : ℕ) (d : E.Data) (a : After E)
      → a ≡ epoll_add E s errno sock events d
      → a.result ≡ false
      → is_exists a.errno ≡ true
      → ((epoll_mod E a.state a.errno sock events d).result
          || not (is_no_entry (epoll_mod E a.state a.errno sock events d).errno))
        ≡ true
  unfolding epoll_add epoll_mod
  add_then_mod s errno (pos fd) events d a e bad is = or_not _ _ (λ bad' is'.
      let failed = ap (λ (t : After E). t.result) (sym e) ∙ bad in
      let kept =
        ap (λ (t : After E). E.interest t.state fd) e
        ∙ kept_at s fd (some (mask_of events, d)) (epoll_add E s errno (pos fd) events d)
            (epoll_add-Sets s errno (pos fd) events d) failed in
      add_present s fd (mask_of events) d errno failed
        (ap (λ (t : After E). is_exists t.errno) (sym e) ∙ is)
        (sym kept ∙ mod_missing a.state fd (mask_of events) d a.errno bad' is'))
  add_then_mod s errno (negsuc n) events d a e bad is =
      or_not false _ (λ bad' is'. exists_ne_no_entry a.errno is is')

  mod_then_add :
      (s : E.State) (errno : Errno) (sock : ℤ) (events : ℕ) (d : E.Data) (a : After E)
      → a ≡ epoll_mod E s errno sock events d
      → a.result ≡ false
      → is_no_entry a.errno ≡ true
      → ((epoll_add E a.state a.errno sock events d).result
          || not (is_exists (epoll_add E a.state a.errno sock events d).errno))
        ≡ true
  unfolding epoll_add epoll_mod
  mod_then_add s errno (pos fd) events d a e bad is = or_not _ _ (λ bad' is'.
      let failed = ap (λ (t : After E). t.result) (sym e) ∙ bad in
      let kept =
        ap (λ (t : After E). E.interest t.state fd) e
        ∙ kept_at s fd (some (mask_of events, d)) (epoll_mod E s errno (pos fd) events d)
            (epoll_mod-Sets s errno (pos fd) events d) failed in
      add_present a.state fd (mask_of events) d a.errno bad' is' (
        kept
        ∙ mod_missing s fd (mask_of events) d errno failed
            (ap (λ (t : After E). is_no_entry t.errno) (sym e) ∙ is)))
  mod_then_add s errno (negsuc n) events d a e bad is =
      or_not false _ (λ bad' is'. exists_ne_no_entry a.errno is' is)

  -- A call that comes to an end, and what it leaves.
  pub record Ends (s : E.State) (sock : ℤ) (wanted : Entry) (r : Option (After E)) : Type 0 where
    pub after : After E
    pub returns : r ≡ some after
    pub sets : Sets s sock wanted after

  ends :
      (s : E.State) (sock : ℤ) (wanted : Entry) (a : After E)
      → Sets s sock wanted a
      → Ends s sock wanted (some a)
  ends s sock wanted a f = record { after = a; returns = refl; sets = f }

  or_false : (b c : Bool) → (b || not c) ≡ false → (b ≡ false) × (c ≡ true)
  or_false true c h = absurd cc
  or_false false true h = (refl, refl)
  or_false false false h = absurd cc

  -- A second call that decides, behind a first one that failed.
  second :
      (s : E.State) (sock : ℤ) (wanted : Entry) (a b : After E) (stays : Bool)
      (rest : Option (After E))
      → Sets s sock wanted a
      → a.result ≡ false
      → Sets a.state sock wanted b
      → stays ≡ true
      → Ends s sock wanted (if stays then some b else rest)
  second s sock wanted a b stays rest f bad g e =
      if_elim (Ends s sock wanted) stays
        (λ _. ends s sock wanted b (after_failure s sock wanted wanted a b f bad g))
        (λ e'. absurd cc)

  -- `AddSocket` likewise, for events that are not none.
  pub add_socket-Ends :
      (n : ℕ) (s : E.State) (errno : Errno) (sock : ℤ) (events : ℕ) (d : E.Data)
      → (events == 0) ≡ false
      → Ends s sock (some (mask_of events, d)) (add_socket E (suc (suc n)) s errno sock events d)
  unfolding add_socket
  add_socket-Ends n s errno sock events d ne =
      let w : Option (Mask × E.Data) = some (mask_of events, d) in
      let a = epoll_add E s errno sock events d in
      if_elim (Ends s sock w) (a.result || not (is_exists a.errno))
        (λ _. ends s sock w a (epoll_add-Sets s errno sock events d))
        (λ retry.
          let (bad, is) = or_false a.result (is_exists a.errno) retry in
          if_elim (Ends s sock w) (events == 0) (λ z. absurd cc)
            (λ _.
              second s sock w a (epoll_mod E a.state a.errno sock events d) _ _
                (epoll_add-Sets s errno sock events d) bad
                (epoll_mod-Sets a.state a.errno sock events d)
                (add_then_mod s errno sock events d a refl bad is)))

  -- `ModSocket` of the poller comes to an end on two rounds of fuel, whatever `errno` was and whatever
  -- epoll answers. Where it returns true, epoll reports on that descriptor alone differently, on
  -- reading and writing as `events` says, or not at all for no events; where it returns false, the
  -- interest list is unchanged, as it is for a negative descriptor.
  pub mod_socket-Ends :
      (n : ℕ) (s : E.State) (errno : Errno) (sock : ℤ) (events : ℕ) (d : E.Data)
      → Ends s sock
          (if events == 0 then none else some (mask_of events, d))
          (mod_socket E (suc (suc n)) s errno sock events d)
  unfolding mod_socket
  mod_socket-Ends n s errno sock events d =
      let w : Option (Mask × E.Data) = some (mask_of events, d) in
      let a = epoll_mod E s errno sock events d in
      elim (Bool-cases (events == 0)) [
        | inl z ↦ rw z (ends s sock none (epoll_del E s errno sock) (epoll_del-Sets s errno sock))
        | inr some_events ↦ rw some_events (
            if_elim (Ends s sock w) (a.result || not (is_no_entry a.errno))
              (λ _. ends s sock w a (epoll_mod-Sets s errno sock events d))
              (λ retry.
                let (bad, is) = or_false a.result (is_no_entry a.errno) retry in
                second s sock w a (epoll_add E a.state a.errno sock events d) _ _
                  (epoll_mod-Sets s errno sock events d) bad
                  (epoll_add-Sets a.state a.errno sock events d)
                  (mod_then_add s errno sock events d a refl bad is)))
      ]
