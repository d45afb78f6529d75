-- ===== src/Runs.antt =====
-- Runs of the program's parts on concrete inputs.
mod Documents
mod Samples
mod ControlRuns
mod DriverRuns
mod ClientRuns
mod ServerRuns
mod ThreadRuns
mod EvdiRuns
mod PhoneRuns
mod WindowsRuns
mod ServiceRuns
mod ProcessorRuns
