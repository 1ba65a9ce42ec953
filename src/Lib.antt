-- ===== src/Lib.antt =====
-- Drivers of this repository, modelled function by function, with the theorems that make them
-- right.
--
-- gfifo_platform/gfifo_platform_driver.c is a byte FIFO behind a character device: a reader waits
-- for bytes, a writer for room, on two wait queues under one mutex, with poll, O_NONBLOCK and
-- SIGIO. `Gfifo` has its state (`Dev`: the array, cur_len, the files of the fasync list) and its
-- handlers: `gfifo_read`, `gfifo_write`, `gfifo_ioctl`, `gfifo_poll`, `gfifo_llseek`,
-- `gfifo_fasync`, `gfifo_release`. A blocking handler is its waiting loop, `wait_while`, followed
-- by its critical section, `read_body` or `write_body`. What a sleeper finds when it is woken is a
-- list of wake-ups, one for each return of schedule(). `Gfifo.Spec` is the bounded queue that
-- `Gfifo.Refine` compares the sections with, `Gfifo.Waiting` is about the loops, `Gfifo.Calls`
-- about whole calls. `Gfifo.Threads` puts any number of threads in the handlers of one device, as
-- a step relation whose steps are the mutex, the tests, going to sleep, signals and the transfers.
-- Its history records for a read what copy_to_user was handed and the number that is returned; a
-- flag tells whether gfifo_read has called memcpy on ranges that overlap, which the C standard
-- leaves undefined. `Gfifo.Plain` is the FIFO without SIGIO, that of gfifo/gfifo.c and
-- gfifo_nonblock/gfifo_nonblock.c, and `Gfifo.Plain.Forget` compares the two. The handlers of
-- gfifo_async, gfifo_misc and gfifo_misc_n are those of gfifo_platform, but for the line that
-- finds the device.
--
-- memloader/firmware.c loads a firmware image through the callbacks of a device driver. `Firmware`
-- has `fw_load_device_firmware`, with the state machine FW_EMPTY, FW_LOADING, FW_LOADED,
-- FW_FAILED, FW_DELETED; what other threads store in the state meanwhile is a function from the
-- moments of a load (`Moment`: request_firmware, `start`, the rounds of the loop, before, in and
-- behind `end`) to states. The callbacks are functions on a state of the driver's own.
-- `Firmware.Sysfs` is the files that user space reads and writes (`fw_show`, `fw_store`,
-- `fw_set_filename`), `Firmware.Setup` is `fw_initialize`, `fw_get_parameters` and `fw_cleanup`.
-- memloader/memloader_core.c is a driver that uses it: `Memloader` has the callbacks
-- `memloader_start`, `memloader_write` and `memloader_end`, which copy the image to physical
-- memory, a function from addresses to bytes. `Memloader.Setup` has its files, probe and remove.
-- `Memloader.Result` is about a load by the two together of an image in one piece,
-- `Memloader.Pages` about images in pages.
--
-- generic/generic_access.c is `Register`: masked reads and writes of device registers;
-- `Register.Hooks` has the callbacks that can stand in for 8-bit accesses. watchdog/watchdog.c is
-- `Watchdog`, which reaches its hardware through them: the commands, `Watchdog.Timer` with the
-- timer handler running beside any number of users, a statement at a time, `Watchdog.Setup` with
-- probe, remove and the resources they hold.
--
-- led/led_support.c and led/led_dev.c are `Led`: the brightness of a LED that is a bit of a
-- register. `Led.Setup` reads the properties of the device tree, `Led.Setup.Activate` has
-- `dev_leds_init`, `led_dev_activate` and `led_dev_deactivate` with what they hold of the kernel;
-- a setting that is left to the work queue is made when the queue is destroyed. The kernel's
-- led_classdev_unregister switches a LED off through the driver's own callback; `none` is the
-- callback that follows the NULL of the driver's data.
--
-- logbuffer/logbuffer.c is `Logbuffer`, which shows the text that a boot loader has left in a
-- memory region: `process_logbuffer` splits it in lines, `logbuffer_show` checks what it is given.
--
-- gmem/gmem.c is `Gmem`, a device that is a block of memory, with read, write and seek.
--
-- test_suite/limitfs.c is a FUSE file system that passes every call on to a directory of the host
-- and keeps the sum of the file sizes below a maximum. `Limitfs` has its state (`Fs`: src,
-- max_size, cur_size) and what it asks of the host, the record `Posix` on a state of the host's
-- own; `Limitfs.Scan` is the measurement of the directory, `Limitfs.Handlers` the handlers,
-- `Limitfs.Options` is `main` up to fuse_main. `Limitfs.Flat` is about a directory that has no
-- subdirectories but the "." and ".." that the host lists anywhere in it, `Limitfs.Nested` about
-- any, `Limitfs.Quota` about the maximum.
--
-- test_suite/netrelay/ has two programs that relay Ethernet frames between a network interface and
-- a tap device. relay.c and relay.h are `Netrelay` (the packet buffer and the registry of relays),
-- `Netrelay.Forward` (the forwarding loop) and `Netrelay.Options` (`parseArgs` and `main` up to
-- the sockets). eoe_filter.c is `Netrelay.Eoe`, which puts frames in a tunnel, dhcp_filter.c is
-- `Netrelay.Dhcp`, which rewrites their VLAN tag; `Netrelay.Filter` has the socket filters of both
-- and the machine of the classic BPF that runs them.
--
-- test_suite/memutil/ saves a region of physical memory to a file or loads it from one: `Memutil`
-- has the mapping and the transfers of mem_ops.c, `Memutil.Options` the options of work_paras.c
-- and `main` of mem_util.c.
--
-- `Base` has what these share: C's integers (a w-bit number is a natural number below 2 ^ w with
-- its wrap-around written out; a signed one is a ℤ), binary digits and masks, lists with native
-- indices and windows of them, the text functions of the C library, error numbers. The services of
-- the kernel are parameters: copy_to_user and copy_from_user (`Base.Kernel.Uaccess`, with the law
-- that copy_from_user fills the destination), memcpy (defined by the C standard only where the
-- ranges are disjoint, `IsMemcpy`), request_firmware, ioremap, the device tree, kobject_add,
-- strtol; so are the system calls of the programs. A result `none` stands for a call that does not
-- return, for a sleep that is not over, or for an access outside of an array.
--
-- Some loops run on fuel. `load_loop` moves at least one byte in every round, so that more fuel
-- than the image has bytes is enough. `copy_pages` is given one more than the bytes that it is to
-- copy, and `show_pieces` one more than the bytes of the text. Two more are bounded by what they
-- run over: the scan of a directory takes a bound on the depth of the directories below it, and a
-- socket filter the number of its instructions, since its jumps only lead forward.
--
-- Not modelled: the module and device registration code, reference counts of kobjects, the time
-- that a load takes; the drivers uio, netlink and simple_interrupt; gmem_mutex and gmem_n; the
-- set-up of the sockets in relay.c; the programs asciidump, calamares_bin, clearmem,
-- dump_memory_to_file, file_reader, gfifo_poll, gfifo_poll_n, gfifo_signal, smemcap and netlink of
-- test_suite, which are input and output.
pub mod Base
pub mod Gfifo
pub mod Firmware
pub mod Memloader
pub mod Register
pub mod Watchdog
pub mod Logbuffer
pub mod Gmem
pub mod Limitfs
pub mod Netrelay
pub mod Memutil
pub mod Led
