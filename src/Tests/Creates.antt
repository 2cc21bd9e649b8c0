-- ===== src/Tests/Creates.antt =====
-- CREATE TABLE in an empty database.
use uhp_sql.Common.{◌≡◌, refl, none, some, List, [], ◌∷◌, map, arith, Bytes, codes}
use uhp_sql.Packet.Ok
use uhp_sql.Reply.Frame.{frame}
use uhp_sql.Meta.{DataType, int, varchar, TableColumn, new_column}
use uhp_sql.Store.{command_get-none}
use uhp_sql.Catalog.{DataBase, get_table}
use uhp_sql.Catalog.Tables.{IsDistinct}
use uhp_sql.Statement.{CreateStatement, create, equals}
use uhp_sql.Executor.Analyze.{Stack}
use uhp_sql.Executor.Exec.{Server, exec_statement}
use uhp_sql.Executor.Table.{Keeps}
use uhp_sql.Executor.Creates.{Created, exec_statement-Created}
use uhp_sql.Tests.Servers.{toy, no_byte-All, people, no_rows, idle, idle-IsValid}

abbrev empty_default : DataBase
empty_default = record { table_count = 0; db_name = codes "default"; tables = [] }

abbrev new_server : Server toy
new_server = record {
  dbms = record { heap = empty_default ∷ []; dbs = (codes "default", 0) ∷ []; cur_db = some 0 };
  store = [];
  socket = idle;
}

abbrev definitions : List (Bytes × DataType)
definitions = (codes "id", int) ∷ (codes "name", varchar) ∷ []

abbrev new_columns : List TableColumn
new_columns = map (λ c. new_column c.0 c.1) definitions

abbrev statement : CreateStatement
statement = record { table_name = people; columns = some definitions }

abbrev stack : Stack
stack = record { op_type = equals; limit = 7 }

not_there : get_table empty_default people ≡ none
unfolding get_table
not_there = refl

new_columns-IsDistinct : IsDistinct new_columns
unfolding new_column
new_columns-IsDistinct = ((λ e. cc, tt), (tt, tt))

new_columns-Keeps : Keeps toy new_server.dbms empty_default people new_columns [] no_rows
new_columns-Keeps = record {
  at_keys = λ key h. command_get-none toy [] _ refl;
  stored = λ key vals h. absurd (cc h);
}

exec_statement-Created_example :
    Created toy new_server empty_default people new_columns no_rows
      (frame (Ok.pack 1 0 2 0) 1)
      (exec_statement toy stack new_server 1 (create statement))
exec_statement-Created_example =
    exec_statement-Created toy new_server 0 empty_default statement definitions no_rows stack 1 refl
      refl refl not_there new_columns-IsDistinct (no_byte-All 0 (codes "default") refl)
      (no_byte-All 0 people refl) new_columns-Keeps idle-IsValid (omega arith)
