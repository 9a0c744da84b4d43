-- ===== src/ModuleGraph.antt =====
-- kernel/module/graph.py: the module graph. `Inputs` is what a module declares, `Discovery` the walk
-- over the imports, `Visibility` which module declares each token that a module sees; the other
-- modules prove them right.
mod Tests
pub mod Inputs
pub mod Discovery
pub mod Visibility
pub mod Merging
pub mod Views
pub mod Layers
pub mod Order
pub mod Cycles
pub mod Blame
pub mod Fuel
