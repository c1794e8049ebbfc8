-- ===== src/Ipc.antt =====
-- Inter-process communication: the buffers behind terminals and pipes.
pub mod Buffer
