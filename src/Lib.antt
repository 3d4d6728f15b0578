-- ===== src/Lib.antt =====
-- Verification of stanchion, a plugin host: manifests, capabilities, signatures, a lockfile, and a
-- registry that loads plugins into sandboxed runtimes and drives them.
--
-- The program's parts, and how they meet. A plugin is a directory with a manifest
-- (crates/stanchion-abi/src/manifest.rs). Before the registry hands it to a runtime it validates
-- the manifest, digests the directory, asks the host's verifier for a signer, and holds both against
-- a revocation list (crates/stanchion-abi/src/signature.rs) and a lockfile
-- (crates/stanchion-registry/src/lock.rs). A policy then decides which of the capabilities that
-- the manifest asks for are granted (crates/stanchion-abi/src/callback.rs). The registry
-- (crates/stanchion-registry/src/lib.rs) keeps the loaded plugins in a vector with an index from
-- names to places, and calls, replaces and drops them by name. LuaRocks dependencies are compared
-- and installed by crates/stanchion-abi/src/rocks.rs. New builds come from an index
-- (crates/stanchion-dist/src/index.rs), and an upgrade is reviewed against what is installed
-- (crates/stanchion-registry/src/upgrade.rs). A whole directory of plugins is loaded by discovering
-- its manifests, ordering them by their dependencies, verifying each, and handing each runtime the
-- plugins of its type. A plugin travels as an archive that is unpacked within limits
-- (crates/stanchion-dist/src/package.rs), staged beside the plugin root, checked against the index
-- and the lockfile, and moved in by a rename (crates/stanchion-dist/src/install.rs); the index is
-- served by crates/stanchion-index/src/server.rs; a host in another process is driven by JSON-RPC
-- frames on a pipe (crates/stanchion-remote/src/frame.rs and server.rs); and where a program
-- embeds the registry, a guard refuses calls back into it (crates/stanchion-ffi/src/guard.rs).
--
-- Which file models which part:
--   Prelude      text, maps and the list helpers that the parts share
--   Rocks        crates/stanchion-abi/src/rocks.rs. Version: Part and RockVersion; Requirement:
--                Operator, Constraint, Requirement and split_operator, with Written, how one is
--                written; Command: RocksConfig, the name grammar, installed, paths and install
--   Value        crates/stanchion-abi/src/value.rs: Value, toml_to_value, value_to_toml
--   Manifest     crates/stanchion-abi/src/manifest.rs: Manifest and its validation
--   Capability   crates/stanchion-abi/src/callback.rs: policies, split_optional,
--                approve_capabilities
--   Signature    crates/stanchion-abi/src/signature.rs: DirectoryDigest, Signer, Revocations
--   Lock         crates/stanchion-registry/src/lock.rs: LockedPlugin and Lockfile
--   Registry     crates/stanchion-registry/src/error.rs, the state of the registry, read_manifest of
--                crates/stanchion-registry/src/manifest.rs, and verify_plugin
--                Operations: remove, reload, revoke, apply_revocations, call and dispatch
--   Upgrade      crates/stanchion-registry/src/upgrade.rs: the review of an upgrade
--   Index        crates/stanchion-dist/src/index.rs: release documents, the catalog and the choice of
--                a release
--   Installer    crates/stanchion-dist/src/install.rs: stage, stage_upgrade, commit and discard.
--                PluginRoot: the directories of a plugin root and the calls of std::fs on them
--   IndexServer  crates/stanchion-index/src/server.rs and source.rs: the answers of an index server.
--                Windows, Answers, Conditional, Revalidation, Repeating: documents and how long they
--                stay fresh; Discretion: failures; Blobs: the files behind packages
--   Resolution   crates/stanchion-registry/src/manifest.rs: check_dependencies and resolve_order
--   Loading      crates/stanchion-registry/src/lib.rs: load_dir, install_rocks and the checks of
--                rocks, with discover of crates/stanchion-registry/src/manifest.rs.
--                Directory: the steps that reach the world; Installing: install_rocks
--   Remote       crates/stanchion-remote/src/frame.rs: reading and writing of JSON-RPC frames
--   Channel      crates/stanchion-remote/src/server.rs: HostChannel and serve, the host's end of the
--                pipes. Waiting: what waits to be taken up; Serving: what is answered
--   Package      crates/stanchion-dist/src/package.rs: safe_relative, unpack and verify_directory
--   Guard        crates/stanchion-ffi/src/guard.rs: CallGuard, with the lock that
--                crates/stanchion-ffi/src/host.rs takes after it
--   Sanitize     crates/stanchion-abi/src/sanitize.rs: log messages of plugins
--   Limits       crates/stanchion-abi/src/limits.rs: ceilings of memory and instructions
--   Tests        runs on concrete inputs
-- The files below a part hold its lemmas and theorems, named for what they are about.
--
-- How the program's types correspond. A String is the list of its code points (Text), a byte string
-- a list of numbers (Bytes). A BTreeMap is an association list in key order (Map), by the order of
-- code points, which is that of the UTF-8 bytes. An error is a constructor of the model's own error
-- type; the wording of a message is kept where the code passes it on and left out where it is only
-- shown. A method that changes the registry takes it and returns the new one beside its result. A
-- semver version and a semver requirement are their canonical texts, a float is an opaque number, a
-- plugin instance is a handle.
--
-- What lies outside is the parameter `Host`, with a state W of its own: reading and parsing a
-- manifest, walking a directory, reading a file, SHA-256, and the runtimes, which answer a call with
-- a value, an error or a caught panic. The host's verifier and its policies are functions in the
-- state. The `luarocks` command is a function from its arguments to its output. Nothing is assumed of
-- any of these, save where a theorem names a hypothesis. Loading has a second one, `Loader`: reading
-- directories, loading a group of plugins in a runtime, and the `luarocks` command.
--
-- Package takes an archive as the list of the entries that flate2 and tar give, and writing a file
-- fails as its parameter says: at its creation, after some bytes, or at the end. The installer
-- has `System`: the plugin root is a function from names to directories, and each call of
-- std::fs on it fails where `Faults` says so; a removal that fails may leave something behind.
-- IndexServer has `Rendering`, which is JSON, the format of timestamps and SHA-256, and counts
-- time in nanoseconds since 1970; no instant before that is modelled. Remote has `Codec`,
-- serde_json's part, and reads a stream as the list of buffers that `fill_buf` gives; a usize
-- has 64 bits.
--
-- Every loop but three is structural recursion on the list that the code walks. Kahn's loop in
-- Resolution has fuel for one round for each plugin that is ready at first and for each edge; a
-- round takes one plugin out of the queue and puts in at most as many as it takes edges away.
-- The loop that reads a frame in Remote has fuel for one round more than the stream has bytes;
-- each round but the last takes a byte or more. The loop that serves requests in Channel has
-- fuel for one round more than there are messages and queued requests; each round but the last
-- takes up one. A component or a revision of a rock version is a u64: a text beyond it is not
-- read as a number, and counting up saturates, as in the code.
--
-- Not modelled: the audit of a directory, writing a package, the remote client, the table of
-- methods of the remote server, the language bindings, and the insides of the Lua and WASM
-- runtimes; the TOML parser and other input and output.
pub mod Prelude
pub mod Rocks
pub mod Value
pub mod Manifest
pub mod Capability
pub mod Signature
pub mod Lock
pub mod Registry
pub mod Upgrade
pub mod Index
pub mod IndexServer
pub mod Installer
pub mod Resolution
pub mod Sanitize
pub mod Limits
pub mod Loading
pub mod Remote
pub mod Package
pub mod Channel
pub mod Guard
pub mod Tests
