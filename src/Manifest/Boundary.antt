-- ===== src/Manifest/Boundary.antt =====
-- The exceptions that `verify_manifest` of aitp_verifier/manifest.py lets through.
use aitp_verifier_py.Text.{Text}
use aitp_verifier_py.Platform.{Platform}
use aitp_verifier_py.Aid.{Aid}
