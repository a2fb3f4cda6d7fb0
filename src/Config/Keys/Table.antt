-- ===== src/Config/Keys/Table.antt =====
-- The tables of configuration keys of src/lxc/confile.c. An entry has its callbacks by what follows
-- set_config_, get_config_ and clr_config_ in their names, which is the same text in each entry.
use lxc.Base.{Bytes, codes, List, [], ◌∷◌, Bool, true, false}

pub record ConfigItem : Type 0 where
  pub name : Bytes
  pub strict : Bool
  pub callbacks : Bytes

abbrev item : Bytes → Bool → Bytes → ConfigItem
item name strict callbacks = record { name = name; strict = strict; callbacks = callbacks }

abbrev pub config_jump_table : List ConfigItem
config_jump_table =
    item (codes "lxc.arch") true (codes "personality")
    ∷ item (codes "lxc.apparmor.profile") true (codes "apparmor_profile")
    ∷ item (codes "lxc.apparmor.allow_incomplete") true (codes "apparmor_allow_incomplete")
    ∷ item (codes "lxc.apparmor.allow_nesting") true (codes "apparmor_allow_nesting")
    ∷ item (codes "lxc.apparmor.raw") true (codes "apparmor_raw")
    ∷ item (codes "lxc.autodev.tmpfs.size") true (codes "autodev_tmpfs_size")
    ∷ item (codes "lxc.autodev") true (codes "autodev")
    ∷ item (codes "lxc.cap.drop") true (codes "cap_drop")
    ∷ item (codes "lxc.cap.keep") true (codes "cap_keep")
    ∷ item (codes "lxc.cgroup2") false (codes "cgroup2_controller")
    ∷ item (codes "lxc.cgroup.dir.monitor.pivot") true (codes "cgroup_monitor_pivot_dir")
    ∷ item (codes "lxc.cgroup.dir.monitor") true (codes "cgroup_monitor_dir")
    ∷ item (codes "lxc.cgroup.dir.container.inner") true (codes "cgroup_container_inner_dir")
    ∷ item (codes "lxc.cgroup.dir.container") true (codes "cgroup_container_dir")
    ∷ item (codes "lxc.cgroup.dir") true (codes "cgroup_dir")
    ∷ item (codes "lxc.cgroup.relative") true (codes "cgroup_relative")
    ∷ item (codes "lxc.cgroup") false (codes "cgroup_controller")
    ∷ item (codes "lxc.console.buffer.size") true (codes "console_buffer_size")
    ∷ item (codes "lxc.console.logfile") true (codes "console_logfile")
    ∷ item (codes "lxc.console.path") true (codes "console_path")
    ∷ item (codes "lxc.console.rotate") true (codes "console_rotate")
    ∷ item (codes "lxc.console.size") true (codes "console_size")
    ∷ item (codes "lxc.sched.core") true (codes "sched_core")
    ∷ item (codes "lxc.environment.runtime") true (codes "environment_runtime")
    ∷ item (codes "lxc.environment.hooks") true (codes "environment_hooks")
    ∷ item (codes "lxc.environment") true (codes "environment")
    ∷ item (codes "lxc.ephemeral") true (codes "ephemeral")
    ∷ item (codes "lxc.execute.cmd") true (codes "execute_cmd")
    ∷ item (codes "lxc.group") true (codes "group")
    ∷ item (codes "lxc.hook.autodev") true (codes "hooks")
    ∷ item (codes "lxc.hook.clone") true (codes "hooks")
    ∷ item (codes "lxc.hook.destroy") true (codes "hooks")
    ∷ item (codes "lxc.hook.mount") true (codes "hooks")
    ∷ item (codes "lxc.hook.post-stop") true (codes "hooks")
    ∷ item (codes "lxc.hook.pre-mount") true (codes "hooks")
    ∷ item (codes "lxc.hook.pre-start") true (codes "hooks")
    ∷ item (codes "lxc.hook.start") true (codes "hooks")
    ∷ item (codes "lxc.hook.start-host") true (codes "hooks")
    ∷ item (codes "lxc.hook.stop") true (codes "hooks")
    ∷ item (codes "lxc.hook.version") true (codes "hooks_version")
    ∷ item (codes "lxc.hook") true (codes "hooks")
    ∷ item (codes "lxc.idmap") true (codes "idmaps")
    ∷ item (codes "lxc.include") true (codes "includefiles")
    ∷ item (codes "lxc.init.cmd") true (codes "init_cmd")
    ∷ item (codes "lxc.init.gid") true (codes "init_gid")
    ∷ item (codes "lxc.init.groups") true (codes "init_groups")
    ∷ item (codes "lxc.init.uid") true (codes "init_uid")
    ∷ item (codes "lxc.init.cwd") true (codes "init_cwd")
    ∷ item (codes "lxc.keyring.session") true (codes "keyring_session")
    ∷ item (codes "lxc.log.file") true (codes "log_file")
    ∷ item (codes "lxc.log.level") true (codes "log_level")
    ∷ item (codes "lxc.log.syslog") true (codes "log_syslog")
    ∷ item (codes "lxc.monitor.unshare") true (codes "monitor")
    ∷ item (codes "lxc.monitor.signal.pdeath") true (codes "monitor_signal_pdeath")
    ∷ item (codes "lxc.mount.auto") true (codes "mount_auto")
    ∷ item (codes "lxc.mount.entry") true (codes "mount")
    ∷ item (codes "lxc.mount.fstab") true (codes "mount_fstab")
    ∷ item (codes "lxc.namespace.clone") true (codes "namespace_clone")
    ∷ item (codes "lxc.namespace.keep") true (codes "namespace_keep")
    ∷ item (codes "lxc.namespace.share.") false (codes "namespace_share")
    ∷ item (codes "lxc.time.offset.boot") true (codes "time_offset_boot")
    ∷ item (codes "lxc.time.offset.monotonic") true (codes "time_offset_monotonic")
    ∷ item (codes "lxc.net.") false (codes "jump_table_net")
    ∷ item (codes "lxc.net") true (codes "net")
    ∷ item (codes "lxc.no_new_privs") true (codes "no_new_privs")
    ∷ item (codes "lxc.prlimit") false (codes "prlimit")
    ∷ item (codes "lxc.pty.max") true (codes "pty_max")
    ∷ item (codes "lxc.rootfs.managed") true (codes "rootfs_managed")
    ∷ item (codes "lxc.rootfs.mount") true (codes "rootfs_mount")
    ∷ item (codes "lxc.rootfs.options") true (codes "rootfs_options")
    ∷ item (codes "lxc.rootfs.path") true (codes "rootfs_path")
    ∷ item (codes "lxc.seccomp.allow_nesting") true (codes "seccomp_allow_nesting")
    ∷ item (codes "lxc.seccomp.notify.cookie") true (codes "seccomp_notify_cookie")
    ∷ item (codes "lxc.seccomp.notify.proxy") true (codes "seccomp_notify_proxy")
    ∷ item (codes "lxc.seccomp.profile") true (codes "seccomp_profile")
    ∷ item (codes "lxc.selinux.context.keyring") true (codes "selinux_context_keyring")
    ∷ item (codes "lxc.selinux.context") true (codes "selinux_context")
    ∷ item (codes "lxc.signal.halt") true (codes "signal_halt")
    ∷ item (codes "lxc.signal.reboot") true (codes "signal_reboot")
    ∷ item (codes "lxc.signal.stop") true (codes "signal_stop")
    ∷ item (codes "lxc.start.auto") true (codes "start")
    ∷ item (codes "lxc.start.delay") true (codes "start")
    ∷ item (codes "lxc.start.order") true (codes "start")
    ∷ item (codes "lxc.tty.dir") true (codes "tty_dir")
    ∷ item (codes "lxc.tty.max") true (codes "tty_max")
    ∷ item (codes "lxc.uts.name") true (codes "uts_name")
    ∷ item (codes "lxc.sysctl") false (codes "sysctl")
    ∷ item (codes "lxc.proc") false (codes "proc")
    ∷ []

abbrev pub config_jump_table_net : List ConfigItem
config_jump_table_net =
    item (codes "flags") true (codes "net_flags")
    ∷ item (codes "hwaddr") true (codes "net_hwaddr")
    ∷ item (codes "ipv4.address") true (codes "net_ipv4_address")
    ∷ item (codes "ipv4.gateway") true (codes "net_ipv4_gateway")
    ∷ item (codes "ipv6.address") true (codes "net_ipv6_address")
    ∷ item (codes "ipv6.gateway") true (codes "net_ipv6_gateway")
    ∷ item (codes "link") true (codes "net_link")
    ∷ item (codes "l2proxy") true (codes "net_l2proxy")
    ∷ item (codes "macvlan.mode") true (codes "net_macvlan_mode")
    ∷ item (codes "ipvlan.mode") true (codes "net_ipvlan_mode")
    ∷ item (codes "ipvlan.isolation") true (codes "net_ipvlan_isolation")
    ∷ item (codes "mtu") true (codes "net_mtu")
    ∷ item (codes "name") true (codes "net_name")
    ∷ item (codes "script.down") true (codes "net_script_down")
    ∷ item (codes "script.up") true (codes "net_script_up")
    ∷ item (codes "type") true (codes "net_type")
    ∷ item (codes "vlan.id") true (codes "net_vlan_id")
    ∷ item (codes "veth.mode") true (codes "net_veth_mode")
    ∷ item (codes "veth.n_rxqueues") true (codes "net_veth_n_rxqueues")
    ∷ item (codes "veth.n_txqueues") true (codes "net_veth_n_txqueues")
    ∷ item (codes "veth.pair") true (codes "net_veth_pair")
    ∷ item (codes "veth.ipv4.route") true (codes "net_veth_ipv4_route")
    ∷ item (codes "veth.ipv6.route") true (codes "net_veth_ipv6_route")
    ∷ item (codes "veth.vlan.id") true (codes "net_veth_vlan_id")
    ∷ item (codes "veth.vlan.tagged.id") true (codes "net_veth_vlan_tagged_id")
    ∷ []
