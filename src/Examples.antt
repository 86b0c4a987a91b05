-- ===== src/Examples.antt =====
-- Runs of the model on concrete inputs, and each theorem at one of them.
mod Layers
mod Stores
mod Deliveries
mod Failures
mod Wakes
mod Settings
mod Requests
mod Tokens
mod Identities
mod Connections
mod Gateways
mod Managers
