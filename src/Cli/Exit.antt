-- ===== src/Cli/Exit.antt =====
-- exit.rs, without the errors of the argument parser.
use qurbrix_hwinfo.Common.{ℕ}
use qurbrix_hwinfo.Model.Report.{ScanStatus}
use qurbrix_hwinfo.Inventory.Error.{
  InventoryError, IoKind, full_scan_failed, partial_rejected, core_identity_incomplete,
  lease_timeout, stale_lease, snapshot_not_found, serialization, io,
}

pub data ExitCode : Type 0 where
  ok cli_or_serialization scan_failed unsupported permission not_found storage timeout : ExitCode

unfoldable pub code : ExitCode → ℕ
code ok = 0
code cli_or_serialization = 1
code scan_failed = 2
code unsupported = 3
code permission = 4
code not_found = 5
code storage = 6
code timeout = 124

unfoldable pub exit_code_for_inventory : InventoryError → ExitCode
exit_code_for_inventory full_scan_failed = scan_failed
exit_code_for_inventory partial_rejected = scan_failed
exit_code_for_inventory core_identity_incomplete = scan_failed
exit_code_for_inventory lease_timeout = timeout
exit_code_for_inventory stale_lease = timeout
exit_code_for_inventory (snapshot_not_found _) = not_found
exit_code_for_inventory (serialization _) = cli_or_serialization
exit_code_for_inventory (io IoKind.permission_denied) = permission
exit_code_for_inventory _ = storage

unfoldable pub exit_code_for_status : ScanStatus → ExitCode
exit_code_for_status ScanStatus.complete = ok
exit_code_for_status ScanStatus.partial = ok
exit_code_for_status ScanStatus.failed = scan_failed
