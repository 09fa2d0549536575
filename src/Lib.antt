-- ===== src/Lib.antt =====
-- WhisezOS: the boot loader, the kernel's core, the layout of its file system, and four of its
-- user programs.
--
-- The program is a UEFI loader (boot/spectre-boot), a microkernel (kernel/spectre-kernel), a
-- copy-on-write file system (fs/spectrefs) and user programs. The loader audits the memory and
-- verifies the images of a signed manifest before it starts the kernel. Every operation of the
-- kernel on an object is authorised by a capability token; endpoints and ports carry messages
-- between processes; the scheduler chooses what runs; page tables and the frame allocator stand
-- under all of them. The vault seals the pages of a process and moves them between processes for
-- a message; Game Mode takes cores away from the scheduler and holds the sweeps of the vault
-- back. WinBridge loads executables (userland/winbridge), and SpectreShield watches what
-- processes do (userland/spectreshield). Whisez Guard (userland/whisez-guard) keeps baselines of
-- files and scans them, and Prism (userland/prism) is the desktop.
--
-- Files and the code they model, by its path from the repository's root:
--   Boot.Attest, Boot.Spd, Boot.Glitch, Boot.Main
--               boot/spectre-boot/src/attest.rs: verify_image, digests_equal and the commands of the TPM;
--               spd.rs: enumerate, the capacities and audit; glitch.rs: tamper_line; main.rs: main, the
--               halts and what they call
--   Cap         kernel/spectre-kernel/src/cap.rs: Rights, Object, Capability (mint, derive, permits, handle)
--   CapSet      the same file: CapSet (new, insert, lookup, revoke_object), an open-addressed table
--   Ipc.Endpoint, Ipc.Port
--               kernel/spectre-kernel/src/ipc.rs: Endpoint (call, receive, reply) and the staging of
--               payloads; Port (post, try_recv, take_drop_count). Both ask `permits` of Cap.
--   Sched       kernel/spectre-kernel/src/sched.rs: the queues, pick_next and the affinity; Sched.Lag:
--               eevdf_eligible and eevdf_update_lag; Sched.Admission: admit_realtime, release_realtime
--   Arch.Addr, Arch.Paging, Arch.Frame
--               kernel/spectre-kernel/src/arch/addr.rs, paging.rs, frame.rs: addresses, the walks of
--               translate, map_page and unmap_page, and the bitmap of frames; Arch.Frame.Contiguous:
--               alloc_contiguous, first_used_in and free_contiguous; Arch.Frame.Statistics:
--               largest_free_run and fragmentation_percent
--   Arch.Gdt, Arch.Idt
--               kernel/spectre-kernel/src/arch/gdt.rs and idt.rs: segment descriptors, the builder of their
--               table and the task state segment; interrupt gates and their table
--   Arch.Serial kernel/spectre-kernel/src/arch/serial.rs: divisor_for and Uart (init, self_test,
--               write_byte, write_str_bytes, read_byte)
--   Fs          fs/spectrefs/src/layout.rs: block pointers; Fs.Tree: locate_block; Fs.Uberblocks:
--               Uberblock; Fs.Snapshots: prune_plan
--   Vault       kernel/spectre-kernel/src/vault.rs: VaultKeys, Arena (nonce, seal_page, open_page), the
--               sweep, transfer_pages, which ipc.rs calls, and on_cross_process_fault
--   GameMode    kernel/spectre-kernel/src/gamemode.rs: enter, leave, watchdog_tick, isolated_owner and
--               allocate_physical_cores
--   Shield      userland/spectreshield/src/heuristic.rs: weights, discounts, decay, combinations, observe
--   Pe          userland/winbridge/src/pe.rs: parse and what it calls
--   Guard       userland/whisez-guard/src/main.rs: Guard.Files: collect_files, hash_file, absolute_path;
--               Guard.Baseline: create_baseline, verify_baseline; Guard.Scan and Guard.Indicators:
--               scan_path, contains_joined; Guard.Posture: audit_host; Guard.Commands: main
--   Prism       userland/prism/src/wm.rs, anim.rs and startmenu.rs: Prism.Windows: Window (request,
--               tick), reap; Prism.Budget: Budget and Quality; Prism.Categories: CategoryModel
--   Prelude     what these share: tests and lists over the native numbers, bits, integers, results
--   Tests       runs on concrete values
-- A file with children holds the definitions, and its children the theorems about them.
--
-- Conventions. A machine word is the number that it holds, and its wrap is written out. A call
-- that changes state takes the state and answers the new one with its result. Atomic operations
-- that interleave are steps of a relation (Sched.Admission.Interleaving); a call that blocks is
-- split at that point (Ipc.Endpoint). Code that is not in the repository is an argument: the
-- generator of tokens, the table of threads, the owner of an isolated core, the sort of
-- snapshots, the memory behind page tables, the bytes of an uberblock, the cipher of the vault,
-- the topology of the cores, the firmware and the TPM of the loader, the bus of the memory
-- modules, the device behind the serial port, the host of Whisez Guard, and floats. What Game
-- Mode asks of the network, the display and the migration of threads is a list of effects, and so
-- is what the loader does to the TPM and the screen.
--
-- Bounds. Sums of frame numbers that pass 2 ^ 64 panic, as in a build with overflow checks
-- (Arch.Frame.Contiguous), and so does the sum of the memory map (Boot.Main). The probe loop of
-- CapSet.insert has no bound in the source; here it has 256 rounds, one for each slot, for a
-- probe that has seen each slot has seen them all. The loops of first_used_in and
-- alloc_contiguous have a round more than there are frames, for their frame grows in each round.
-- The wait of the serial port has the bound of the source, 100,000 spins. The monitor of Whisez
-- Guard runs for as many rounds as it is given hosts. All other loops recurse over their list,
-- the levels of a walk or the words of the bitmap.
--
-- Not modelled: shannon_entropy of heuristic.rs, the easing curves of anim.rs, the pulse of
-- glitch.rs and the geometry of startmenu.rs, which compute with floats; the framebuffer, the
-- demonstration of the loader (demo.rs), drawing and printing; the build tasks (xtask) and the
-- shims of the host (verify). The context switches of sched.rs and ipc.rs only call code that is
-- not in the repository.
pub mod Prelude
pub mod Boot
pub mod Cap
pub mod CapSet
pub mod Ipc
pub mod Sched
pub mod Fs
pub mod Arch
pub mod Vault
pub mod GameMode
pub mod Shield
pub mod Pe
pub mod Guard
pub mod Prism
pub mod Tests
