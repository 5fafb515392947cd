-- ===== src/Simulator.antt =====
-- scheduler/plugin/plugins.go: the plugins of the simulator. Wrapped: simulatorPlugin. Config: the
-- configuration of plugins.
pub mod Wrapped
pub mod Config
