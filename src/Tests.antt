-- ===== src/Tests.antt =====
-- Runs on concrete data, and the theorems at such data.
mod Stacks
mod Layouts
mod Roots
mod Boot
mod Disks
mod Actions
mod Hosts
mod Isos
mod Trees
mod Tries
