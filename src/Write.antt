-- ===== src/Write.antt =====
-- src/storage/oracle_write.cpp: COPY … TO an Oracle table.
pub mod Bind
pub mod Insert
pub mod Buffers
pub mod Sink
pub mod Copy
pub mod Statement
