-- ===== src/Tests.antt =====
-- Concrete runs, and the theorems at inputs that meet their hypotheses.
mod OrderedList
mod Eviction
mod Store
mod Mount
mod Sources
mod Inodes
mod Nfs
mod Mounts
mod Resolved
mod Trees
mod Rebuilt
mod Settings
mod Archive
mod Providers
mod Service
