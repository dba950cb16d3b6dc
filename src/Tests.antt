-- ===== src/Tests.antt =====
-- The theorems at concrete inputs, and runs of the code.
mod Clock
mod Worlds
mod Timers
mod Systems
mod Sending
mod Stopping
mod Senders
mod Transmitting
mod Receiving
mod Prompting
mod Failing
mod Skipping
mod Received
mod Promised
mod Acknowledging
mod Machines
mod Wholes
mod Paces
mod Naps
mod Hosts
mod Restarts
mod Lists
mod Guards
mod Notifications
