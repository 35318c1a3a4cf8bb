-- ===== src/Tests.antt =====
-- Runs of the model on concrete inputs, and the theorems at inputs that meet their hypotheses.
mod Sample
mod StatusTests
mod ClusterTests
mod PodTests
mod MoreTests
mod ImageTests
mod NetworkTests
mod AgentTests
mod DatabaseTests
mod UiTests
mod EntryTests
mod RunTests
mod ServerTests
