-- ===== src/Idmap.antt =====
-- The id mappings of a container: src/lxc/idmap_utils.c, and their configuration in
-- src/lxc/confile.c and src/lxc/confile_utils.c.
pub mod Parse
pub mod Lookup
pub mod Config
pub mod Minimal
pub mod Write
pub mod Tests
