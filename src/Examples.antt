-- ===== src/Examples.antt =====
-- Runs of the definitions on small inputs, and each theorem that has hypotheses at an input that
-- meets them.
mod IdlRuns
mod GuardRuns
mod ErrorRuns
mod ResizeRuns
mod KeyRuns
mod NodeRuns
mod Id2Runs
mod ReaderRuns
mod CursorRuns
mod LoadRuns
mod PageRuns
mod LookupRuns
mod SortRuns
mod CheckRuns
mod RenewRuns
