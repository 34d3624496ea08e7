-- ===== src/FileStorage/Commands.antt =====
-- The four command handlers of the file storage adapter, each with its `_handle` and the loop of
-- `run_once` (write_handler.py, read_handler.py, delete_handler.py, list_handler.py).
pub mod Write
pub mod Read
pub mod Delete
pub mod Listing
pub mod Escape
