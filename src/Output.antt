-- ===== src/Output.antt =====
-- output: what the program prints. The layout of a table is comfy_table's and the text of a JSON value
-- is serde_json's; both are arguments.
pub mod Pretty
pub mod Json
