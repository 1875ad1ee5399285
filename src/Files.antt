-- ===== src/Files.antt =====
-- kernel/sys/fal/vnode.c: paths, vnodes and file descriptors.
pub mod Path
pub mod Vnodes
pub mod Descriptors
