-- ===== src/Tests.antt =====
-- The properties at concrete inputs, where their hypotheses hold.
mod Bodies
mod Streams
mod Configs
mod Sessions
mod Tickets
mod States
mod Responses
mod Relays
mod Forwards
