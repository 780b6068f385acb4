-- ===== src/Discovery.antt =====
-- internal/discovery/discovery.go: compiled rules, targets of files and processes, and `Discover`. The
-- environment gives the processes and their open files; `filepath.Glob`, `filepath.Join`, `os.Stat` and
-- `regexp.Compile` are parameters. Log output is left out.
pub mod Rules
pub mod Paths
pub mod Files
pub mod Processes
pub mod Cycle
pub mod Tests
