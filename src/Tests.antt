-- ===== src/Tests.antt =====
-- Runs of the definitions at concrete inputs, one child for each part of the program.
mod Attachments
mod Doubles
mod Headers
mod Keys
mod Manifests
mod Payloads
mod Previews
mod Recoveries
mod Requests
mod Restores
mod Servers
