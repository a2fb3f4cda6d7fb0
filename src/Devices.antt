-- ===== src/Devices.antt =====
-- src/lxc/cgroups/cgroup2_devices.c: the device rules of a cgroup2 container and the eBPF program
-- that enforces them.
pub mod Rules
pub mod Bpf
pub mod Machine
pub mod Attach
pub mod Tests
