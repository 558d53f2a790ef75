-- ===== src/Lib.antt =====
-- qurbrix-hwinfo collects the hardware of a machine, reduces it to canonical records with a bind
-- id and a configuration fingerprint, and keeps reports as snapshots in a SQLite database with
-- artifact files beside it.
--
-- Parts. The probes of hw-probe fill in the devices of hw-model, which hw-collect merges into a
-- report. hw-inventory makes the devices canonical, decides by a quick probe whether the stored
-- snapshot still serves, and otherwise scans in full under a lease and publishes the report.
-- Retention removes old snapshots. hw-cli shows a filtered view of a report.
--
-- Files.
-- Common holds the shared helpers: Boolean tests, lists, sorting, and text as code points with the
-- `str` methods that the source uses.
-- Model: crates/hw-model/src. Kind is kind.rs, Device is device.rs, bus.rs and driver.rs,
-- Properties is properties.rs, Report is report.rs, Snapshot is snapshot.rs, Evidence is
-- evidence.rs, DeviceId is id.rs. Structs are records and enums are data types, field by field.
-- Inventory.Error: crates/hw-inventory/src/error.rs.
-- Inventory.Canonical: crates/hw-inventory/src/canonical.rs. Normalize has the functions on
-- values, Records the records of a device, Digest `canonicalize_devices`. A `Codec` stands for
-- serde_json and sha2.
-- Inventory.Store: crates/hw-inventory/src/store.rs over the tables of
-- migrations/0001_initial.sql. `Db` is the state of the tables and files; an operation is a
-- function from it to a result and the next state. Lease is the scan lease, Probes the history of
-- probes, Publish the publication and loading of snapshots (`publish` is `publish_sync`,
-- `publish_transaction` its transaction), Artifact is artifact.rs over a `Disk`, Retention is
-- maintenance.rs, with the queue of deletions in Retention.Apply. Steps has these operations as
-- the steps of a relation, in any order and at any times.
-- Inventory.Service: crates/hw-inventory/src/service.rs, the reuse of snapshots,
-- `run_full_scan_under_lease` in Service.Scan, and the wait for the lease in Service.Wait:
-- `wait_for_lease` is the loop of `observe_inventory_with_scanner`, `scan_with_lease_policy` the
-- renewals.
-- Inventory.Diff: crates/hw-inventory/src/diff.rs.
-- Parser.Edid: crates/hw-parser/src/edid.rs, with `from_utf8_lossy` in Parser.Lossy.
-- Parser.Dmi: crates/hw-parser/src/dmi.rs, with the memory devices in Memory and Lshw, which
-- Memory.Devices and Lshw.Banks tell block by block, the board in Board, the system in Machine,
-- sizes in Units and the presence detect memory in Spd. Parser.Pci, Usb, Power, Printer, Cdrom,
-- Storage, Bluetooth, Network, Video, Input and Util are the files of their names; Node is the
-- loop over the nodes of lshw that they share. A loop over lines is `each_line` over a record of
-- the loop's variables.
-- Collect: crates/hw-collect/src, merge.rs and status.rs in Merge, the selection of probes of
-- collector.rs in Select.
-- Cli: crates/hw-cli/src, view.rs and exit.rs.
-- BindId: crates/hw-bindid/src, key.rs in Key, devices.rs in Devices, model.rs in Summary. The
-- hexadecimal SHA-1 is an argument.
-- Source: crates/hw-source/src. Answer is result.rs, command.rs and files.rs with the trait of
-- runner.rs, Cached is cached.rs, whose maps of cells are in Cell, and Fake is the runner of
-- registered answers in runner.rs. Cached.Step makes the requests steps of a relation.
-- Tests: runs, and the theorems at concrete inputs.
--
-- Bounds and fuel. Numbers are natural numbers. Instants and durations are nanoseconds, an instant
-- from the year 0. Sums that leave the range of the `time` crate, which panic there, are not told
-- apart. The counters of retention are not wrapped. The refresh rate of a display is taken modulo
-- 2^16, as the source does. The wait for the lease runs on a number of rounds, and its theorem
-- says how many end it. The only other fuel is that of `to_string`, which divides by ten: the
-- number itself is its fuel, and a number has no more digits than its value and one. The counters
-- of the cached runner are taken modulo 2^64.
--
-- Interfaces. `Time` gives the RFC 3339 text of an instant and parses it, `Disk` says which
-- writes, reads and removals succeed, how a report is encoded and what a hash is, `Codec` encodes
-- canonical records. The scan, with its renewals of the lease, is an argument of
-- `run_full_scan_under_lease`, which `scan_with_lease_policy` fills. `SourceRunner` is what the
-- cached runner asks. Regular expressions are functions from a line to what they capture.
--
-- Not modelled. The SQL of the tables of identifiers, properties, relations, sources and warnings,
-- whose statements do not fail; the creation and reading of a snapshot's id, which are the uuid
-- crate's; the constraint that a hash has 64 characters, as one of SHA-256 has; another process's
-- work between the reading of retention's candidates and its transaction; the paged lists, metrics
-- and health check; the semaphore of the cached runner, and requests that are served at the same
-- time; the parsers of hw-parser that are not named above, and numbers with a decimal fraction;
-- the probes, the runner of the real system, argument parsing and output formats, which are mostly
-- input and output.
pub mod Common
pub mod Model
pub mod Inventory
pub mod Parser
pub mod Collect
pub mod Cli
pub mod Source
pub mod BindId
pub mod Tests
