-- ===== src/Lib.antt =====
-- WEFT OS: a model of the repository's own logic, and the theorems about it.
--
-- WEFT OS runs WebAssembly applications in isolated sessions. weft-pack installs signed packages,
-- weft-appd resolves a launch into the grants of a session and supervises it, weft-runtime enforces
-- the grants, weft-compositor shows the session's windows.
--
-- Files, by the crate that they are about:
--   Capability, Capability/*  crates/weft-ipc-types/src/capability.rs: the capability vocabulary;
--     `from_str`, `to_string`, and in Capability/Host the host names that a fetch grant may name.
--   Package, Package/*        crates/weft-ipc-types/src/package.rs: application IDs, the files of an
--     image, the places of app data and its move. The record `FileSystem` is the interface to
--     `std::fs`, with the file system's state passed along; `Lawful` in Package/Migrate is what its
--     calls are documented to do, and Package/Memory a file system for which that holds.
--   Frame, Frame/*            crates/weft-ipc-types/src/lib.rs (`frame_encode`, `frame_decode`) and
--     `try_decode_frames` of crates/weft-compositor/src/appd_ipc.rs. MessagePack is an interface.
--   Approval, Approval/*      crates/weft-ipc-types/src/approval.rs: the capabilities that need the
--     user's approval, and the record of those approved, as the text of its file.
--   SessionGrants, SessionGrants/*  crates/weft-appd/src/grants.rs: `validate`, `grant_dir` and
--     `derive`; SessionGrants/Prepare has the part of `derive` that touches the file system.
--   RuntimeGrants, RuntimeGrants/*  crates/weft-runtime/src/grants.rs: what the runtime permits, its
--     `--preopen` arguments, and in RuntimeGrants/Addresses the public addresses.
--   Channel                   tokio's bounded channels, an interface: what their documentation says.
--   Registry, Registry/*      crates/weft-appd/src/main.rs: `SessionRegistry`, one function for each
--     method; `settled`, `stop_unstarted`, `ready` and `begin_settle` are the critical sections of
--     crates/weft-appd/src/runtime.rs, `launch_app` the registration in `dispatch`. Registry/Steps
--     has the step relation, the other children the proofs.
--   WorkArea, WorkArea/*      crates/weft-compositor/src/windows.rs: `work_area`, the part of the output
--     that the panels leave to application windows.
--   Windows, Windows/*        crates/weft-compositor/src/windows.rs: stacking, focus and the placing of
--     windows, with `take_focus_on_map` of crates/weft-compositor/src/appd_ipc.rs. Smithay's `Space`
--     is an interface with the state passed along; Windows/Layout has `place_windows`,
--     `map_new_window` and `window_closed`, Windows/Once the steps that change the windows.
--   Outbox, Outbox/*          crates/weft-compositor/src/appd_ipc.rs: `send` and `flush`, the bytes that
--     the supervisor's socket has not taken yet. The socket is an interface.
--   Portal, Portal/*          crates/weft-file-portal/src/main.rs: the portal that serves files to a
--     session. The kernel's calls on descriptors are the interface in Portal/Kernel; Portal/Locate is
--     about the choice of the directory, Portal/Files about reading and writing, Portal/Serve about
--     requests and connections.
--   Store, Store/*            crates/weft-ipc-types/src/store.rs: the active revision of a package, and
--     in Store/Pin the locks on it, with what other processes do between two calls.
--   Manifest, Manifest/*      crates/weft-ipc-types/src/manifest.rs: the manifest and the package files
--     that it names. The TOML reader is an argument.
--   Trust, Trust/*            crates/weft-ipc-types/src/trust.rs: keys and signatures, in Trust/Inventory
--     the signed inventory of a package, in Trust/Keys the trusted keys, in Trust/Owners the owner
--     records. SHA-256, Ed25519 and hexadecimal text are the interface `Crypto`; the system calls of
--     an owner record are `OwnerFiles`.
--   Pack, Pack/*              crates/weft-pack/src/main.rs: how the packaging tool changes a store.
--     `Calls` in Pack is the interface to the file system; Pack/Switch has `activate`, Pack/Collect
--     `collect`, Pack/Place `place`, `create_store` and `sync_tree`, Pack/Admit `admit`, Pack/Settle
--     `settle_approval` and Pack/Rollback `rollback_package`. Pack/Seen says what the calls are
--     documented to do to a path, by the entries that the path has had; Pack/Memory is a store for
--     which that holds.
--   Base, Base/*              what the parts share: texts as byte lists, paths as `std::path` reads
--     them, the reading view `Disk` of a file system, maps, sorting, results.
--
-- A launch goes through the parts in this order: `derive` reads the declared capabilities with the
-- parser of Capability, plans the directories and imports, and moves the app's data with Package;
-- the `--grant` and `--preopen` arguments that it writes are parsed by RuntimeGrants; Registry then
-- keeps the session until it has settled.
--
-- A package gets there through Store, which finds the active revision and pins it; Trust says who
-- signed it and keeps the owner of its ID, and Manifest checks the files that its manifest names.
--
-- The packaging tool puts it there: `admit` takes the owner from Trust, `place` names the revision by
-- the content digest of Trust and has `activate` switch the link that Store follows, `collect` and
-- `rollback_package` go on from there, and `settle_approval` keeps the record of Approval.
--
-- Texts and paths are lists of bytes, so `str` methods on ASCII act as they do on UTF-8; white
-- space that is trimmed is ASCII. Session ids are natural numbers with the wrap of `u64` written
-- out. A hash map is an association list in order of insertion. The loop of `try_decode_frames`
-- runs on fuel, as much as the buffer has bytes, and each turn that goes on takes at least four
-- of them; the loop of a portal connection runs on fuel, and as many turns as it has bytes to
-- read are enough. `flush` runs on fuel, one turn for each byte that waits when no write is
-- interrupted. The reading of an inventory and `sync_tree` run on fuel, one for each level of
-- directories, and say so when they need more: the theorems about inventories are about every
-- inventory that was read, and a placement that is stopped this way is one that fails.
--
-- Not modelled: sockets but for the bytes that `flush` writes, processes, mounts, rendering and
-- input, the reading of the environment and of configuration files other than the directories of
-- trusted keys and of the user's data, what the packaging tool prints, checks, signs and unpacks,
-- the commands that compose its operations, among them the uninstallation, and what the shells
-- do. `Disk` is one moment: no other process changes a
-- package while it is read.
pub mod Base
pub mod Capability
pub mod Channel
pub mod Store
pub mod Manifest
pub mod Trust
pub mod Windows
pub mod Outbox
pub mod Pack
pub mod Registry
pub mod WorkArea
pub mod Portal
pub mod Frame
pub mod RuntimeGrants
pub mod Package
pub mod Approval
pub mod SessionGrants
