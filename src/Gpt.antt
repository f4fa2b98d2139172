-- ===== src/Gpt.antt =====
-- src/gpt.c and src/gpt.h. `Header` has the packed structures with `update_crc` and
-- `initialize_gpt`, `Backup` the second copy of the table, `Create` what writes a whole table,
-- `Map` the mapping of the first copy, `Edit` what changes one entry and `Add` the new partition.
pub mod Header
pub mod Backup
pub mod Create
pub mod Map
pub mod Edit
pub mod Add
mod Tests
