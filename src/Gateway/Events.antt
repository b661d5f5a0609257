-- ===== src/Gateway/Events.antt =====
-- The whitened value that goes to the cloud with an event, and what the local pool gets.
