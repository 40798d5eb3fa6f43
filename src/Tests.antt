-- ===== src/Tests.antt =====
-- The theorems at concrete inputs, and runs of the model, one module for each part of the program.
mod BencodeRuns
mod PiecesRuns
mod RequestsRuns
mod PickerRuns
mod PeerRuns
mod ChokeRuns
mod TrackersRuns
mod StorageRuns
mod MetainfoRuns
mod ExtensionsRuns
mod ResumeRuns
mod EngineRuns
mod TrackerRuns
