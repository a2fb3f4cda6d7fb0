-- ===== src/Config.antt =====
-- Configuration items: the list of network devices and the setters of src/lxc/confile_utils.c.
pub mod Network
pub mod Keys
pub mod Unexpanded
pub mod Item
pub mod Line
pub mod Subkeys
pub mod Tests
