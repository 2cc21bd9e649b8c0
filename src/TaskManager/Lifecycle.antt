-- ===== src/TaskManager/Lifecycle.antt =====
-- What happens to a socket in the hands of the manager: it is connected, parsed and disconnected, in
-- that order.
use uhp_sql.Common.{
  ℕ, ◌≡◌, refl, sym, ap, ◌∙◌, Bool, true, false, not, inl, inr, Bool-cases, Option, none, some,
  List, [], ◌∷◌, arith, ◌==◌, if◌then◌else◌, ◌>>=◌, All,
}
use uhp_sql.TaskManager.{Sockets, key, find, Ptr, add_task, adopt, visit, sweep}
use uhp_sql.TaskManager.Invariant.{
  IsOrdered, find-below, insert-IsOrdered, insert-All, is_found, insert-found, find-insert, IsKeyed,
}

pub data Event (A : Type 0) : Type 0 where
  connected : A → Event A
  parsed : A → Event A
  disconnected : A → Event A

-- The same sockets with a record of what is called, the latest first.
abbrev pub logged : Sockets → Sockets
logged S = record {
  World = S.World × List (Event S.Socket);
  Socket = S.Socket;
  get_id = S.get_id;
  is_invalid = λ w s. S.is_invalid w.0 s;
  on_connect = λ w s. (S.on_connect w.0 s, connected s ∷ w.1);
  on_disconnect = λ w s. (S.on_disconnect w.0 s, disconnected s ∷ w.1);
  parse = λ w s. ((S.parse w.0 s).0, ((S.parse w.0 s).1, parsed s ∷ w.1));
}

module _ (S : Sockets) where
  -- Whether a key is in use, by one event on: a socket that is connected already is not connected,
  -- and one that is not is neither parsed nor disconnected.
  abbrev pub in_use_after : Event S.Socket → Bool → Option Bool
  in_use_after (connected s) true = none
  in_use_after (connected s) false = some true
  in_use_after (parsed s) true = some true
  in_use_after (parsed s) false = none
  in_use_after (disconnected s) true = some false
  in_use_after (disconnected s) false = none

  abbrev pub socket_of : Event S.Socket → S.Socket
  socket_of (connected s) = s
  socket_of (parsed s) = s
  socket_of (disconnected s) = s

  -- Whether a key is in use behind the events recorded, or `none` if some came out of order.
  unfoldable pub in_use : ℕ → List (Event S.Socket) → Option Bool
  in_use k [] = some false
  in_use k (e ∷ log) =
      let before = in_use k log in
      if key (S.get_id (socket_of e)) == k then (before >>= in_use_after e) else before

  -- What is recorded agrees with the map at a key.
  abbrev pub Agrees : List (Event S.Socket) → List (ℕ × Ptr (logged S)) → ℕ → Type 0
  Agrees log m k = in_use k log ≡ some (is_found (find k m))

  -- Tasks that are taken in leave a map in order that agrees with the record where it did before.
  pub record Adopted (w : S.World × List (Event S.Socket)) (m : List (ℕ × Ptr (logged S)))
      (r : Option ((S.World × List (Event S.Socket)) × List (ℕ × Ptr (logged S)))) : Type 0 where
    pub world : S.World × List (Event S.Socket)
    pub sockets : List (ℕ × Ptr (logged S))
    pub returns : r ≡ some (world, sockets)
    pub ordered : IsOrdered sockets
    pub keyed : IsKeyed (logged S) sockets
    pub agrees : (k : ℕ) → Agrees w.1 m k → Agrees world.1 sockets k

  connect-Agrees :
      (s : S.Socket) (w : S.World × List (Event S.Socket)) (m : List (ℕ × Ptr (logged S))) (k : ℕ)
      → IsOrdered m
      → Agrees w.1 m k
      → Agrees
          (if (add_task (logged S) s m).0 then (logged S).on_connect w s else w).1
          (add_task (logged S) s m).1
          k
  unfolding add_task in_use
  connect-Agrees s w m k o h =
      rw (insert-found (key (S.get_id s)) (some s) m o, find-insert (key (S.get_id s)) k (some s) m)
        (elim (Bool-cases (key (S.get_id s) == k)) [
          | inl same ↦
              let e : key (S.get_id s) ≡ k = ground arith in
              let found = ap (λ j. some (is_found (find j m))) (sym e) in
              elim (Bool-cases (is_found (find (key (S.get_id s)) m))) [
                | inl old ↦ rw (old, same) (h ∙ found ∙ ap some old)
                | inr new ↦
                    let free : in_use k w.1 ≡ some false = h ∙ found ∙ ap some new in
                    rw (new, same, free) refl
              ]
          | inr other ↦ elim (Bool-cases (is_found (find (key (S.get_id s)) m))) [
            | inl old ↦ rw (old, other) h
            | inr new ↦ rw (new, other) h
          ]
        ])

  pub adopt-Adopted :
      (tasks : List (Ptr (logged S))) (w : S.World × List (Event S.Socket))
      (m : List (ℕ × Ptr (logged S)))
      → All (λ p. (s : S.Socket) × (p ≡ some s)) tasks
      → IsOrdered m
      → IsKeyed (logged S) m
      → Adopted w m (adopt (logged S) tasks w m)
  unfolding adopt add_task
  adopt-Adopted [] w m n o h = record {
    world = w;
    sockets = m;
    returns = refl;
    ordered = o;
    keyed = h;
    agrees = λ k e. e;
  }
  adopt-Adopted (none ∷ tasks) w m ((s, e), n) o h = absurd cc
  adopt-Adopted (some s ∷ tasks) w m (_, n) o h =
      let added = add_task (logged S) s m in
      let rest =
        adopt-Adopted tasks (if added.0 then (logged S).on_connect w s else w) added.1 n
          (insert-IsOrdered (key (S.get_id s)) (some s) m o)
          (insert-All _ (key (S.get_id s)) (some s) m (s, refl) h) in
      record {
        world = rest.world;
        sockets = rest.sockets;
        returns = rest.returns;
        ordered = rest.ordered;
        keyed = rest.keyed;
        agrees = λ k e. rest.agrees k (connect-Agrees s w m k o e);
      }

  pub sweep-All :
      (P : ℕ × Ptr (logged S) → Type 0) (busy : Bool) (w : S.World × List (Event S.Socket))
      (m : List (ℕ × Ptr (logged S)))
      → All P m
      → All P (sweep (logged S) busy w m).2
  unfolding sweep
  sweep-All P busy w [] a = tt
  sweep-All P busy w ((k, none) ∷ m) (a, rest) = sweep-All P busy w m rest
  sweep-All P busy w ((k, some s) ∷ m) (a, rest) =
      let visited = visit (logged S) busy w s in
      elim (Bool-cases (S.is_invalid w.0 s)) [
        | inl gone ↦ rw gone (sweep-All P visited.0 visited.1 m rest)
        | inr valid ↦ rw valid (a, sweep-All P visited.0 visited.1 m rest)
      ]

  pub sweep-IsOrdered :
      (busy : Bool) (w : S.World × List (Event S.Socket)) (m : List (ℕ × Ptr (logged S)))
      → IsOrdered m
      → IsOrdered (sweep (logged S) busy w m).2
  unfolding sweep
  sweep-IsOrdered busy w [] o = tt
  sweep-IsOrdered busy w ((k, none) ∷ m) (a, o) = sweep-IsOrdered busy w m o
  sweep-IsOrdered busy w ((k, some s) ∷ m) (a, o) =
      let visited = visit (logged S) busy w s in
      elim (Bool-cases (S.is_invalid w.0 s)) [
        | inl gone ↦ rw gone (sweep-IsOrdered visited.0 visited.1 m o)
        | inr valid ↦
            rw valid (sweep-All _ visited.0 visited.1 m a, sweep-IsOrdered visited.0 visited.1 m o)
      ]

  entry_key :
      (i : ℕ) (s : S.Socket) (m : List (ℕ × Ptr (logged S)))
      → IsKeyed (logged S) ((i, some s) ∷ m)
      → key (S.get_id s) ≡ i
  entry_key i s m ((t, e), rest) = ap (λ t. key (S.get_id t)) (cc) ∙ sym (ap (λ t. t.0) e)

  -- A visit leaves the record of other keys as it is.
  visit-other :
      (busy : Bool) (w : S.World × List (Event S.Socket)) (s : S.Socket) (k : ℕ)
      → (key (S.get_id s) == k) ≡ false
      → in_use k (visit (logged S) busy w s).1.1 ≡ in_use k w.1
  unfolding visit in_use
  visit-other busy w s k other = elim (Bool-cases (S.is_invalid w.0 s)) [
    | inl gone ↦ rw (gone, other) refl
    | inr valid ↦ rw (valid, other) refl
  ]

  -- A visit of the socket under a key that is in use: it stays in use unless the socket is invalid.
  visit-same :
      (busy : Bool) (w : S.World × List (Event S.Socket)) (s : S.Socket) (k : ℕ)
      → (key (S.get_id s) == k) ≡ true
      → in_use k w.1 ≡ some true
      → in_use k (visit (logged S) busy w s).1.1 ≡ some (not (S.is_invalid w.0 s))
  unfolding visit in_use
  visit-same busy w s k same used = elim (Bool-cases (S.is_invalid w.0 s)) [
    | inl gone ↦ rw (gone, same, used) refl
    | inr valid ↦ rw (valid, same, used) refl
  ]

  -- A sweep leaves the record of keys that are not in the map as it is.
  sweep-missing :
      (busy : Bool) (w : S.World × List (Event S.Socket)) (m : List (ℕ × Ptr (logged S))) (k : ℕ)
      → IsKeyed (logged S) m
      → find k m ≡ none
      → (in_use k (sweep (logged S) busy w m).1.1 ≡ in_use k w.1)
        × (find k (sweep (logged S) busy w m).2 ≡ none)
  unfolding sweep find
  sweep-missing busy w [] k h n = (refl, refl)
  sweep-missing busy w ((i, none) ∷ m) k ((t, e), h) n = absurd cc
  sweep-missing busy w ((i, some s) ∷ m) k (a, h) n =
      let visited = visit (logged S) busy w s in
      let here = entry_key i s m (a, h) in
      elim (Bool-cases (i == k)) [
        | inl same ↦ absurd (cc (rw same at n))
        | inr other ↦
            let same = visit-other busy w s k (ground arith) in
            let (record_same, missing) = sweep-missing visited.0 visited.1 m k h (rw other at n) in
            elim (Bool-cases (S.is_invalid w.0 s)) [
              | inl gone ↦ rw gone (record_same ∙ same, missing)
              | inr valid ↦ rw (valid, other) (record_same ∙ same, missing)
            ]
      ]

  pub sweep-Agrees :
      (busy : Bool) (w : S.World × List (Event S.Socket)) (m : List (ℕ × Ptr (logged S))) (k : ℕ)
      → IsOrdered m
      → IsKeyed (logged S) m
      → Agrees w.1 m k
      → Agrees (sweep (logged S) busy w m).1.1 (sweep (logged S) busy w m).2 k
  unfolding sweep find
  sweep-Agrees busy w [] k o h e = e
  sweep-Agrees busy w ((i, none) ∷ m) k o ((t, null), h) e = absurd cc
  sweep-Agrees busy w ((i, some s) ∷ m) k (above, o) (a, h) e =
      let visited = visit (logged S) busy w s in
      let here = entry_key i s m (a, h) in
      elim (Bool-cases (i == k)) [
        | inl same ↦
            let missing : find k m ≡ none =
              find-below k m (let at_k : i ≡ k = ground arith in rw at_k at above) in
            let (record_same, still) = sweep-missing visited.0 visited.1 m k h missing in
            let used = visit-same busy w s k (ground arith) (rw same at e) in
            elim (Bool-cases (S.is_invalid w.0 s)) [
              | inl gone ↦ rw (gone, still) (record_same ∙ used ∙ ap (λ b. some (not b)) gone)
              | inr valid ↦ rw (valid, same) (record_same ∙ used ∙ ap (λ b. some (not b)) valid)
            ]
        | inr other ↦
            let later =
              sweep-Agrees visited.0 visited.1 m k o h
                (visit-other busy w s k (ground arith) ∙ rw other at e) in
            elim (Bool-cases (S.is_invalid w.0 s)) [
              | inl gone ↦ rw gone later
              | inr valid ↦ rw (valid, other) later
            ]
      ]
