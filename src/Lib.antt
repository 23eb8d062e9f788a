-- ===== src/Lib.antt =====
-- Checkpoint and restore of a Linux process at user level: `ulcr-manager` starts a workload, saves
-- its memory, registers and descriptors in one of two slots, and starts it again from the slot
-- that active.meta names. The development models the parts of src/*.c and include/ulcr/*.h that
-- decide what is stored, where, and what is accepted when it is read back.
--
-- The parts, and how they meet. The manager (src/manager.c) loads a configuration and derives the
-- paths below the runtime root (src/config.c), picks the slot that is not active, has
-- src/snapshot.c write `snapshot.bin` there from what src/procfs.c reads of /proc, and publishes
-- the slot by replacing active.meta in one step with the file functions of src/common.c. On a
-- restart the slot is read from active.meta and the snapshot is loaded by src/snapshot.c for
-- src/runtime.c, which runs inside the new process. The monitor calls the checkpoint and the
-- restore in a loop over a timer, and src/main.c calls each command of the manager.
--
-- Where the code is modelled:
-- - Base, Cstring: shared names, and what the sources use of <string.h>, <ctype.h> and <stdio.h>
--   on byte strings without their terminating 0: `snprintf`, `strchr`, `strrchr`, `strstr`,
--   `strtok`, `fgets`, `strtol`, `atoi`, and the printing of numbers. `none` stands for NULL.
-- - Common: `ulcr_copy_string`, `ulcr_path_join`, `ulcr_is_numeric` of src/common.c. `copied` and
--   `joined` are the buffer that a call on buffers that are not NULL leaves.
-- - Config: `trim` and `ulcr_load_config` of src/config.c, on the bytes of the file. The chain of
--   `strcmp` is `key_of` and `assign`.
-- - Paths: `ulcr_prepare_runtime_paths` of src/config.c.
-- - Files: the file calls of the system as an interface over an unknown state, in the state monad
--   in which the sources call them. Files/Posix has the laws that are relied on, Files/Calm says
--   of a state that no call fails in it, Files/Memory is a machine in memory.
-- - Storage: the functions of src/common.c that reach the file system, every failing call
--   included: `ulcr_write_text_file`, `ulcr_read_text_file`, `ulcr_atomic_write_text_file`,
--   `ulcr_fsync_path_directory`, `ulcr_ensure_directory`, `ulcr_file_exists`.
-- - Slots: `read_active_slot`, `write_active_metadata`, `choose_next_slot`,
--   `slot_directory_for_name`, `count_available_slots` and `active_checkpoint_dir` of
--   src/manager.c.
-- - Doubles, Interval: `compute_dynamic_checkpoint_interval` of src/manager.c, over an interface
--   for `double`.
-- - Argv: `build_workload_argv` of src/manager.c and `build_exec_argv` of src/snapshot.c.
-- - Procfs: src/procfs.c. Procfs/Stat scans the text of /proc/<pid>/stat, Procfs/Regions is
--   `parse_maps_line` and `collect_regions`, Procfs/Uptime the rest of
--   `ulcr_get_process_runtime_seconds`, and Procfs/Descriptors is `collect_fdinfo`, `collect_fds`,
--   `collect_link_path` and `ulcr_collect_proc_layout`.
-- - Binary: how a C struct of fixed size is laid out on x86-64, as a `Codec` with its laws.
-- - Snapshot: the structs of include/ulcr/snapshot.h and `ulcr_load_snapshot` of src/snapshot.c.
--   `image_bytes` is the part of the file in front of the regions' contents, in the order in which
--   `ulcr_capture_snapshot` writes it.
-- - Tracer, Manifest, Capture: `ulcr_capture_snapshot`, `dump_region_bytes` and
--   `ulcr_write_manifest` of src/snapshot.c, over an interface for `ptrace` and
--   `process_vm_readv`. The loop of `dump_region_bytes` runs on the size of the region as fuel;
--   Capture/Dump is about this fuel. Capture/Loop, Capture/Frame and Capture/Others are about the
--   files that a capture changes, Capture/Contents, Capture/Dumped, Capture/Regions,
--   Capture/Stored, Capture/Whole and Capture/Snapshots about what is in snapshot.bin,
--   Capture/Loads about loading it.
-- - Manager: `ulcr_checkpoint_latest` of src/manager.c with the lock, the state file and the
--   status file; Manager/Aside and Manager/Keeps are about the files that it leaves alone,
--   Manager/Commit about active.meta, Manager/Ready about snapshot.bin.
-- - Processes, Restore: `ulcr_restore_managed_process` of src/snapshot.c, over an interface for
--   `fork`, `kill`, `execv`, the clock and timers. What the child does behind `fork` is a
--   definition of its own, `restore_child`; the parent goes on in the state that `fork` leaves.
-- - Control: the manager's other commands, `ulcr_init_runtime`, `ulcr_start_process` with its
--   child, `ulcr_restore_latest`, `ulcr_fail_process` and `ulcr_stop_process` of src/manager.c;
--   Control/Report is `ulcr_print_status`, whose result is what it prints. Control/Keeps and
--   Control/Looks are about the files, Control/Pids, Control/PidText, Control/Records and
--   Control/Once about the pid file, Control/Children about what the children run.
-- - Monitor: `ulcr_monitor_loop` of src/manager.c. `turn` is one pass of its loop and `turns` a
--   number of them. Monitor/Supervisor is the abstract machine that the loop is compared with,
--   Monitor/Trace the runs of the loop with what happens in each pass; the other children are
--   about these runs.
-- - Command: src/main.c; its messages are the result.
-- - Demo: demo/counter_demo.c, as what it leaves in memory and prints for a list of timestamps,
--   one for each pass of its loop before a signal ends it.
-- - Kernel, Runtime: src/runtime.c, over an interface for the calls on descriptors and mappings
--   whose laws are in Kernel. Runtime/Reopened is about where the descriptors lead afterwards,
--   Runtime/Window about the window of managed memory.
--
-- Numbers. Counts, sizes, addresses and offsets are natural numbers; C's `int` and `long` are the
-- integers of Base/Int with the conversions written out (`to_int`, `clamp_long`, `to_ull`). A
-- snapshot's values are in range where `Codec.Fits` says so. Two loops of the model run on fuel:
-- the printing of a number, which divides it once for each unit of fuel and gets one unit more
-- than the number, and `dump_region_bytes`, which takes a byte or more in each round and gets the
-- size of the region. The loop of the monitor ends only where its timer fails, so it is given the
-- number of passes to make, and what is said of it is said for every number.
--
-- What is outside. The kernel, the C library, `ptrace` and the C type of the registers are
-- parameters. The stream that `ulcr_write_manifest` prints to is one write. Reading /proc does not
-- change the state, so the two queries of a process's runtime in `ulcr_checkpoint_latest`, and
-- those in `ulcr_print_status`, are one. The size of a buffer is converted to `int` in
-- `ulcr_copy_string` and `ulcr_path_join`; where the sources call them with a fixed size,
-- `formatted` does without, and a text is taken to be below 2 ^ 31 bytes. Not modelled are the
-- scripts, the signal handler and the page of demo/counter_demo.c (its loop ends at the end of the
-- list of timestamps), and the environment, except that the child of a restore sets the snapshot's
-- directory in it. A process runs beside the manager, so what it does is the state that the next
-- call finds. The clock in `ulcr_timestamp_now` and the arithmetic of `double` are parameters. On
-- an empty path `ulcr_ensure_directory` reads bytes that are not set; the model goes on as if
-- there were none.
pub mod Base
pub mod Cstring
pub mod Common
pub mod Config
pub mod Paths
pub mod Files
pub mod Storage
pub mod Slots
pub mod Doubles
pub mod Interval
pub mod Argv
pub mod Procfs
pub mod Binary
pub mod Snapshot
pub mod Kernel
pub mod Runtime
pub mod Tracer
pub mod Manifest
pub mod Capture
pub mod Manager
pub mod Processes
pub mod Restore
pub mod Control
pub mod Monitor
pub mod Command
pub mod Demo
