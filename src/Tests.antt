-- ===== src/Tests.antt =====
-- Runs of the model on concrete data, and each theorem at an input that meets its hypotheses.
mod Data
mod Worker
mod Requests
mod Launches
mod Completions
mod Goroutines
mod Reruns
mod Handlers
mod Accounts
mod Registrations
mod Processes
