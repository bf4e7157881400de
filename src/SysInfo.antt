-- ===== src/SysInfo.antt =====
-- insights/internal/collector/sysinfo on Linux: what the client reads of the machine. The commands
-- that it runs, the decoding of JSON, YAML, INI files and UTF-16, D-Bus, and the symbolic links of
-- sysfs are parameters.
pub mod Text
pub mod Machine
pub mod Platform
pub mod Software
pub mod Memory
pub mod Hardware
pub mod Devices
pub mod Collect
