-- ===== src/Balancer.antt =====
-- balancer/catabalancer: which node a viewer is sent to. `Nodes` has the nodes and their scores,
-- `Selection` the choice among them, `Stats` the table of nodes and the two requests.
pub mod Nodes
pub mod Selection
pub mod Stats
