-- ===== src/Config.antt =====
-- config/config.go and config/config_modes.go: the configuration and how it is read from the
-- environment.
pub mod Modes
pub mod Env
pub mod Values
pub mod New
