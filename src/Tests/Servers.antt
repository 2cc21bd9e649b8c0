-- ===== src/Tests/Servers.antt =====
-- A server that keeps its entries in a list, and a database with one table, for the tests.
use uhp_sql.Common.{
  ℕ, ◌≡◌, ◌≢◌, refl, Bool, true, false, inl, inr, not, ◌&&◌, Bool-cases, none, some, List, [], ◌∷◌,
  ◌==◌, if◌then◌else◌, arith, Bytes, codes, All, replicate,
}
use uhp_sql.UnboundedBuffer
use uhp_sql.AsyncBuffer.{AsyncBuffer}
use uhp_sql.AsyncBuffer.Write as Write
use uhp_sql.Common.Maps.{find_key, assign, erase_key, find_key-assign, find_key-erase_key}
use uhp_sql.StringUtils.{is_blank, trim_left, trim_right, is_nil}
use uhp_sql.StringUtils.RoundTrip.{IsClean}
use uhp_sql.Meta.{int, varchar, TableColumn}
use uhp_sql.Store.{Redis, command_get-none}
use uhp_sql.Catalog.{DataBase, Dbms, new_table, get_cur_db, get_table}
use uhp_sql.Catalog.Tables.{IsDistinct, new_table-Answers}
use uhp_sql.Executor.Table.{Contents, InUse, Keeps}

-- Whether `key` matches a pattern that ends in `*`, or is the pattern.
abbrev matches : Bytes → Bytes → Bool
matches [] [] = true
matches [] (c ∷ key) = false
matches (p ∷ pattern) [] = p == b'*'
matches (p ∷ pattern) (c ∷ key) =
    let rest = matches pattern key in if p == b'*' then true else p == c && rest

abbrev scan_entries : List (Bytes × Bytes) → Bytes → List Bytes
scan_entries [] pattern = []
scan_entries ((key, value) ∷ s) pattern =
    let rest = scan_entries s pattern in if matches pattern key then key ∷ value ∷ rest else rest

abbrev pub toy : Redis
toy = record {
  Store = List (Bytes × Bytes);
  get = λ s k. find_key k s;
  put = λ s k v. assign k v s;
  del = λ s k. erase_key k s;
  scan = λ s pattern count. some (scan_entries s pattern);
  get-put = λ s k v j. find_key-assign k j v s;
  get-del = λ s k j. find_key-erase_key k j s;
}

abbrev pub no_byte : ℕ → Bytes → Bool
no_byte x [] = true
no_byte x (c ∷ s) = not (c == x) && no_byte x s

pub no_byte-All : (x : ℕ) (s : Bytes) → no_byte x s ≡ true → All (λ c. c ≢ x) s
no_byte-All x [] h = tt
no_byte-All x (c ∷ s) h = elim (Bool-cases (c == x)) [
  | inl e ↦ absurd (cc (rw e at h))
  | inr ne ↦ (λ e. absurd (ground arith), no_byte-All x s (rw ne at h))
]

abbrev pub id_column : TableColumn
id_column = record { col_name = codes "id"; col_type = int; val = [] }

abbrev pub name_column : TableColumn
name_column = record { col_name = codes "name"; col_type = varchar; val = [] }

abbrev pub columns : List TableColumn
columns = id_column ∷ name_column ∷ []

abbrev pub people : Bytes
people = codes "people"

abbrev pub default_db : DataBase
default_db = record {
  table_count = 1;
  db_name = codes "default";
  tables = (people, new_table people columns) ∷ [];
}

abbrev pub dbms : Dbms
dbms = record { heap = default_db ∷ []; dbs = (codes "default", 0) ∷ []; cur_db = some 0 }

pub columns-IsDistinct : IsDistinct columns
columns-IsDistinct = ((λ e. cc, tt), (tt, tt))

pub current : get_cur_db dbms ≡ some default_db
unfolding get_cur_db
current = refl

pub known : get_table default_db people ≡ some (new_table people columns)
unfolding get_table
known = refl

abbrev pub people-InUse : InUse dbms default_db people columns
people-InUse = record {
  table = new_table people columns;
  current = current;
  known = known;
  answers = (new_table-Answers people columns columns-IsDistinct).0;
  db_text = no_byte-All 0 (codes "default") refl;
  tab_text = no_byte-All 0 people refl;
}

abbrev pub no_rows : Contents
no_rows key = none

pub no_rows-Keeps : Keeps toy dbms default_db people columns [] no_rows
no_rows-Keeps = record {
  at_keys = λ key h. command_get-none toy [] _ refl;
  stored = λ key vals h. absurd (cc h);
}

pub bob-IsClean : IsClean b'$' (codes "bob")
unfolding is_blank trim_left trim_right is_nil
bob-IsClean = record { left = refl; right = refl; apart = no_byte-All b'$' (codes "bob") refl }

pub one-IsClean : IsClean b'$' (codes "1")
unfolding is_blank trim_left trim_right is_nil
one-IsClean = record { left = refl; right = refl; apart = no_byte-All b'$' (codes "1") refl }

-- The send buffer of a new socket, with a ring of 8 bytes in place of 128 kB.
abbrev pub idle : AsyncBuffer
idle = record {
  tmp_buf = UnboundedBuffer.empty;
  buffer = record { max_size = 8; read_pos = 0; write_pos = 0; buffer = replicate 8 0 };
  back_buf = UnboundedBuffer.empty;
  back_bytes = 0;
}

pub idle-IsValid : Write.IsValid idle
idle-IsValid = record {
  tmp = omega arith;
  ring = record {
    exponent = 3;
    power = refl;
    small = omega arith;
    storage = refl;
    read_in = omega arith;
    write_in = omega arith;
  };
  back = omega arith;
  counted = refl;
}
