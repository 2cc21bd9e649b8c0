-- ===== src/Executor.antt =====
-- executor/: the statements of a client are analysed, carried out in the store, and answered.
pub mod Analyze
pub mod Rows
pub mod Exec
pub mod Result
pub mod Statements
pub mod Selects
pub mod Creates
pub mod Keys
pub mod Cells
pub mod Limit
pub mod Table
