-- ===== src/Revocation/Boundary.antt =====
-- The exceptions that `verify_snapshot_trust` and `verify_revocation_snapshot` let through.
use aitp_verifier_py.Text.{Text}
use aitp_verifier_py.Platform.{Platform}
