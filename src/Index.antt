-- ===== src/Index.antt =====
-- index/: the repositories of full indices and the inverted index.
pub mod Repo
pub mod Memory
pub mod FileRepo
pub mod Inverted
mod Tests
