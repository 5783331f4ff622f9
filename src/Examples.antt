-- ===== src/Examples.antt =====
-- Concrete runs: the theorems applied to inputs on which the modelled code does its whole work.
mod Toy
mod Tokens
mod Tct
mod Delegations
mod Envelopes
mod Snapshots
mod Codecs
mod Presenter
mod Attestation
mod Vouchers
mod Manifests
mod Keys
mod Greetings
mod Commits
mod Bundles
