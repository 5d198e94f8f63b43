-- ===== src/Examples.antt =====
-- Concrete runs of the model, and each theorem at an input where its hypotheses hold.
mod UirRuns
mod CborRuns
mod RegistryRuns
mod WebSocketRuns
mod StreamRuns
mod MsgPackRuns
mod ProjectRuns
mod SchemaRuns
mod ProtobufRuns
mod PayloadRuns
mod PlanRuns
mod SelectionRuns
