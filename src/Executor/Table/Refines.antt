-- ===== src/Executor/Table/Refines.antt =====
-- The statements on one table carry out what they promise on a map from keys to rows.
use uhp_sql.Common.{
  ℕ, ◌≡◌, refl, ap, ◌∙◌, inl, inr, Bool-cases, Option-cases, none, some, List, [], ◌∷◌, arith,
  Bytes, codes, bytes_eq, length, set, replicate, All, length-set,
}
use uhp_sql.StringUtils.{is_blank, string_split, strings_join}
use uhp_sql.StringUtils.RoundTrip.{IsRow, string_split-strings_join}
use uhp_sql.Meta.{TableColumn}
use uhp_sql.Store.{
  Redis, NoNul, command_set, command_get, command_del, command_get-command_set,
  command_get-command_del,
}
use uhp_sql.Catalog.{DataBase, Dbms, cur_table, get_col_index}
use uhp_sql.Executor.Rows.{
  data_key, decode_row, insert_row, select_rows, select_op, select_equal, single_row, delete_rows,
  update_row, update_found, fill,
}
use uhp_sql.Executor.Keys.{NoNul-strings_join, NoNul-data_key, bytes_eq-data_key}
use uhp_sql.Executor.Cells.{
  labelled, fill-labelled, length-labelled, decode_from-typed, get_col_index-Answers,
  store_at-column, All-set, IsRow-set,
}
use uhp_sql.Executor.Table.{
  IsStored, Contents, put, Change, inserting, updating, deleting, apply, apply_all, Legal, InUse,
  Keeps, change, carry_out, found, by_key,
}

abbrev joined : List Bytes → Bytes
joined vals = strings_join vals (codes "$$")

split-joined :
    (vals : List Bytes) → IsRow b'$' vals → string_split (joined vals) (codes "$$") ≡ vals
unfolding is_blank
split-joined vals r = string_split-strings_join b'$' (b'$' ∷ []) vals refl r

insert_row-labelled :
    (R : Redis) (d : Dbms) (b : DataBase) (tab : Bytes) (cols : List TableColumn) (s : R.Store)
    (v : Bytes) (vals : List Bytes)
    → InUse d b tab cols
    → length (v ∷ vals) ≡ length cols
    → insert_row R d s tab (labelled cols (v ∷ vals))
      ≡ some (1, command_set R s (data_key b tab v) (joined (v ∷ vals)))
unfolding insert_row
insert_row-labelled R d b tab [] s v vals u e = absurd (omega arith)
insert_row-labelled R d b tab (c ∷ cols) s v vals u e =
    let row = labelled (c ∷ cols) (v ∷ vals) in
    let size : length row ≡ length (c ∷ cols) = length-labelled (c ∷ cols) (v ∷ vals) e in
    let filled : fill u.table (replicate (length row) []) row ≡ some (v ∷ vals) =
      ap (λ n. fill u.table (replicate n []) row) size
      ∙ fill-labelled u.table (c ∷ cols) (v ∷ vals) u.answers e in
    rw (u.current, u.known, filled) refl

module _ (R : Redis) (d : Dbms) (b : DataBase) (tab : Bytes) (cols : List TableColumn)
    (u : InUse d b tab cols) where
  abbrev pub K : R.Store → Contents → Type 0
  K s m = Keeps R d b tab cols s m

  pub found_table : cur_table d tab ≡ some u.table
  unfolding cur_table
  found_table = rw u.current u.known

  NoNul-key : (key : Bytes) → NoNul key → NoNul (data_key b tab key)
  NoNul-key key h = NoNul-data_key b tab key u.db_text u.tab_text h

  Keeps-set :
      (s : R.Store) (m : Contents) (key : Bytes) (vals : List Bytes)
      → K s m
      → NoNul key
      → IsStored cols vals
      → K (command_set R s (data_key b tab key) (joined vals)) (put m key (some vals))
  Keeps-set s m key vals k hk (r, n, e) = record {
    at_keys = λ j hj.
        command_get-command_set R s (data_key b tab key) (joined vals) (data_key b tab j)
          (NoNul-key key hk) (NoNul-strings_join vals n) (NoNul-key j hj)
        ∙ rw (bytes_eq-data_key b tab key j) (elim (Bool-cases (bytes_eq key j)) [
          | inl same ↦ rw same refl
          | inr other ↦ rw other (k.at_keys j hj)
        ]);
    stored = λ j vs h. elim (Bool-cases (bytes_eq key j)) [
      | inl same ↦
          let h' : some vals ≡ some vs = rw same at h in
          let e' : vals ≡ vs = cc in rw (← e') (r, n, e)
      | inr other ↦ k.stored j vs (rw other at h)
    ];
  }

  Keeps-del :
      (s : R.Store) (m : Contents) (key : Bytes)
      → K s m
      → NoNul key
      → K (command_del R s (data_key b tab key)) (put m key none)
  Keeps-del s m key k hk = record {
    at_keys = λ j hj.
        command_get-command_del R s (data_key b tab key) (data_key b tab j) (NoNul-key key hk)
          (NoNul-key j hj)
        ∙ rw (bytes_eq-data_key b tab key j) (elim (Bool-cases (bytes_eq key j)) [
          | inl same ↦ rw same refl
          | inr other ↦ rw other (k.at_keys j hj)
        ]);
    stored = λ j vs h. elim (Bool-cases (bytes_eq key j)) [
      | inl same ↦ let h' : none ≡ some vs = rw same at h in absurd (cc (h'))
      | inr other ↦ k.stored j vs (rw other at h)
    ];
  }

  -- A change that is carried out as the map says.
  pub record Done (s : R.Store) (m : Contents) (c : Change) : Type 0 where
    pub after : R.Store
    pub returns : change R d b tab cols s c ≡ some ((apply m c).0, after)
    pub keeps : K after (apply m c).1

  insert_row-Done :
      (s : R.Store) (m : Contents) (v : Bytes) (vals : List Bytes)
      → K s m
      → Legal cols (inserting v vals)
      → Done s m (inserting v vals)
  insert_row-Done s m v vals k (r, (nv, n), e) = record {
    after = command_set R s (data_key b tab v) (joined (v ∷ vals));
    returns = insert_row-labelled R d b tab cols s v vals u e;
    keeps = Keeps-set s m v (v ∷ vals) k nv (r, (nv, n), e);
  }

  delete_rows-Done :
      (s : R.Store) (m : Contents) (field key : Bytes)
      → K s m
      → Legal cols (deleting field key)
      → Done s m (deleting field key)
  unfolding delete_rows
  delete_rows-Done s m field key k (hk, h) = record {
    after = command_del R s (data_key b tab key);
    returns = rw (u.current, h) refl;
    keeps = Keeps-del s m key k hk;
  }

  update_row-Done :
      (s : R.Store) (m : Contents) (c : TableColumn) (i : ℕ) (value key : Bytes)
      → K s m
      → Legal cols (updating c i value key)
      → Done s m (updating c i value key)
  unfolding update_row update_found
  update_row-Done s m c i value key k (at, clean, ne, nv, hk) = elim (Option-cases (m key)) [
    | inl missing ↦
        let r : command_get R s (data_key b tab key) ≡ none = k.at_keys key hk ∙ rw missing refl in
        record { after = s; returns = rw (u.current, r, missing) refl; keeps = rw missing k }
    | inr (vals, present) ↦
        let r : command_get R s (data_key b tab key) ≡ some (joined vals) =
          k.at_keys key hk ∙ rw present refl in
        let (row, n, e) = k.stored key vals present in
        let index : get_col_index u.table c.col_name ≡ i =
          get_col_index-Answers u.table 0 i cols c u.answers at ∙ omega arith in
        let stored : IsStored cols (set vals i value) = (
          IsRow-set b'$' vals i value row clean ne,
          All-set NoNul vals i value n nv,
          length-set vals i value ∙ e,
        ) in
        record {
          after = command_set R s (data_key b tab key) (joined (set vals i value));
          returns =
              rw
                (
                  u.current,
                  r,
                  present,
                  found_table,
                  index,
                  split-joined vals row,
                  store_at-column i value vals cols c at e,
                )
                refl;
          keeps = rw present (Keeps-set s m key (set vals i value) k hk stored);
        }
  ]

  pub select_rows-found :
      (s : R.Store) (m : Contents) (field key : Bytes) (limit : ℕ)
      → K s m
      → NoNul key
      → select_rows R d s (by_key tab field key limit) ≡ some (found cols (m key))
  unfolding select_rows select_op select_equal single_row decode_row
  select_rows-found s m field key limit k hk = elim (Option-cases (m key)) [
    | inl missing ↦
        let r : command_get R s (data_key b tab key) ≡ none = k.at_keys key hk ∙ rw missing refl in
        rw (u.current, r, missing) refl
    | inr (vals, present) ↦
        let r : command_get R s (data_key b tab key) ≡ some (joined vals) =
          k.at_keys key hk ∙ rw present refl in
        let (row, n, e) = k.stored key vals present in
        rw
          (
            u.current,
            r,
            present,
            found_table,
            split-joined vals row,
            decode_from-typed u.table 0 cols vals u.answers e,
          )
          refl
  ]

  pub change-Done : (s : R.Store) (m : Contents) (c : Change) → K s m → Legal cols c → Done s m c
  change-Done s m (inserting v vals) k h = insert_row-Done s m v vals k h
  change-Done s m (updating c i value key) k h = update_row-Done s m c i value key k h
  change-Done s m (deleting field key) k h = delete_rows-Done s m field key k h

  record DoneAll (s : R.Store) (m : Contents) (cs : List Change) : Type 0 where
    after : R.Store
    returns : carry_out R d b tab cols s cs ≡ some ((apply_all m cs).0, after)
    keeps : K after (apply_all m cs).1

  carry_out-DoneAll :
      (s : R.Store) (m : Contents) (cs : List Change) → K s m → All (Legal cols) cs → DoneAll s m cs
  carry_out-DoneAll s m [] k h = record { after = s; returns = refl; keeps = k }
  carry_out-DoneAll s m (c ∷ cs) k (hc, h) =
      let one = change-Done s m c k hc in
      let rest : DoneAll one.after (apply m c).1 cs =
        carry_out-DoneAll one.after (apply m c).1 cs one.keeps h in
      record {
        after = rest.after;
        returns = rw (one.returns, rest.returns) refl;
        keeps = rest.keeps;
      }

-- On a table in use whose rows the store keeps as the map `m` says, every sequence of legal
-- changes is carried out and counts the rows affected as on the map. These are INSERTs of whole
-- rows in the table's order, UPDATEs of a column and DELETEs, by a key without zero bytes, of
-- values that are read again as they were stored, and no DELETE where `1` is to equal `1`. A
-- SELECT of any key without zero bytes then finds exactly the row that the map has there, with the
-- names and the types of the table's columns, or no row.
pub carry_out_refines :
    (R : Redis) (d : Dbms) (b : DataBase) (tab : Bytes) (cols : List TableColumn) (s : R.Store)
    (m : Contents) (cs : List Change)
    → InUse d b tab cols
    → Keeps R d b tab cols s m
    → All (Legal cols) cs
    → (after : R.Store) × (carry_out R d b tab cols s cs ≡ some ((apply_all m cs).0, after))
      × ((field key : Bytes) (limit : ℕ)
          → NoNul key
          → select_rows R d after (by_key tab field key limit)
            ≡ some (found cols ((apply_all m cs).1 key)))
carry_out_refines R d b tab cols s m cs u k h =
    let done = carry_out-DoneAll R d b tab cols u s m cs k h in
    (
      done.after,
      done.returns,
      λ field key limit hk.
          select_rows-found R d b tab cols u done.after (apply_all m cs).1 field key limit
            done.keeps hk,
    )
