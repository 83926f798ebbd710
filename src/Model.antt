-- ===== src/Model.antt =====
-- model/bpmnos/src: what the model knows of its nodes.
pub mod Predecessors
pub mod Definitions
