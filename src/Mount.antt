-- ===== src/Mount.antt =====
-- The options of mounts: parse_mntopts_legacy, parse_mount_attrs and their tables in src/lxc/conf.c.
pub mod Table
pub mod Legacy
pub mod Attrs
mod Tests
