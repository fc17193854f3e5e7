-- ===== src/Containers.antt =====
-- The standard containers that the code uses: hash sets, hash maps, and hash maps of hash sets.
pub mod Eq
pub mod HashSet
pub mod HashMap
pub mod Adjacency
pub mod OrderedMap
